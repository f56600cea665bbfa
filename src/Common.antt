-- ===== src/Common.antt =====
-- The names that the other modules share: the libraries', passed on, and those of the children.
mod Tests
mod Lists
mod Str
mod Scan
mod Number
pub use Tests.*
pub use Lists.*
unfoldable pub use Str.{c_string, strcmp, str_eq}
unfoldable pub use Scan.{is_space, take_set, skip_space, scan_fields, strtok}
unfoldable pub use Number.{
  print_int, as_u32, read_hex, strtol16, is_digit, read_digits, atoi, print_base,
}
pub use Number.{add_ℕ, ℤ, pos, negsuc, neg, is_pos, is_neg, is_zero, digit, print_dec, print_hex}
pub use Scan.{
  not_bar, not_space, print_fields, IsField, IsWord, AllFields, scan_fields-print_fields,
  scan_fields-length, take_set-length, Lacks, strtok-line,
}
pub use Str.{
  Bytes, codes, strcmp-eq_iff, strcmp_refl, strcmp-gt_iff, strcmp_lt_trans, str_eq_iff, str_eq_refl,
  str_eq_ne,
}
pub use Prim.Native.Nat.{ℕ, zero, suc, ◌+◌, ◌-◌, ◌*◌, ◌/◌, ◌%◌, ◌^◌, ◌≤◌, ◌<◌, compare, Ordering}
pub use mathlib.Core.Path.{◌≡◌, refl, sym, ap, ◌∙◌}
pub use mathlib.Core.Logic.{◌≢◌, ◌↔◌, ◌⊎◌, inl, inr}
pub use mathlib.Core.Bool.{Bool, true, false, not, ◌&&◌, ◌||◌}
pub use mathlib.Core.Option.{Option, none, some}
pub use mathlib.Core.List.{List, [], ◌∷◌, ◌++◌, append-nil, append_assoc}
pub use native.Mathlib.Omega.{arith}
