-- ===== src/Common/Str.antt =====
-- C strings as lists of byte values, without the terminating NUL, and the functions of the C
-- library that the program calls on them.
use Prim.Native.Nat.{ℕ, compare, Ordering}
use Prim.Native.Char.{code}
use Prim.Native.String.{String}
use mathlib.Core.Path.{◌≡◌, refl}
use mathlib.Core.Logic.{◌↔◌, ◌≢◌}
use mathlib.Core.List.{List, [], ◌∷◌}
use mathlib.Core.Bool.{Bool, true, false}
use native.Mathlib.Omega.{arith}
use k8s.Common.Tests.{◌==◌, if◌then◌else◌}

abbrev pub Bytes : Type 0
Bytes = List ℕ

-- The bytes of an ASCII literal.
abbrev pub codes : String → Bytes
codes String.[] = []
codes (String.◌∷◌ c s) = code c ∷ codes s

-- The string that a char buffer holds: what stands before its first NUL.
unfoldable pub c_string : Bytes → Bytes
c_string [] = []
c_string (c ∷ cs) = if c == 0 then [] else c ∷ c_string cs

-- `strcmp`, by the sign of its result.
unfoldable pub strcmp : Bytes → Bytes → Ordering
strcmp [] [] = Ordering.eq
strcmp [] (y ∷ ys) = Ordering.lt
strcmp (x ∷ xs) [] = Ordering.gt
strcmp (x ∷ xs) (y ∷ ys) = elim (compare x y) [
  | Ordering.lt ↦ Ordering.lt
  | Ordering.eq ↦ strcmp xs ys
  | Ordering.gt ↦ Ordering.gt
]

-- `!strcmp(a, b)`
unfoldable pub str_eq : Bytes → Bytes → Bool
unfolding strcmp
str_eq a b = elim (strcmp a b) [ Ordering.eq ↦ true | _ ↦ false ]

pub strcmp-eq_iff : (a b : Bytes) → (strcmp a b ≡ Ordering.eq) ↔ (a ≡ b)
unfolding strcmp
strcmp-eq_iff [] [] = ground arith
strcmp-eq_iff [] (y ∷ ys) = ground arith
strcmp-eq_iff (x ∷ xs) [] = ground arith
strcmp-eq_iff (x ∷ xs) (y ∷ ys) = ground (arith, strcmp-eq_iff xs ys)

pub strcmp_refl : (a : Bytes) → strcmp a a ≡ Ordering.eq
strcmp_refl a = (strcmp-eq_iff a a).1 refl

pub strcmp-gt_iff : (a b : Bytes) → (strcmp a b ≡ Ordering.gt) ↔ (strcmp b a ≡ Ordering.lt)
unfolding strcmp
strcmp-gt_iff [] [] = ground arith
strcmp-gt_iff [] (y ∷ ys) = ground arith
strcmp-gt_iff (x ∷ xs) [] = ground arith
strcmp-gt_iff (x ∷ xs) (y ∷ ys) = ground (arith, strcmp-gt_iff xs ys)

pub strcmp_lt_trans :
    (a b c : Bytes) → strcmp a b ≡ Ordering.lt → strcmp b c ≡ Ordering.lt → strcmp a c ≡ Ordering.lt
unfolding strcmp
strcmp_lt_trans [] [] c h k = cc
strcmp_lt_trans [] (y ∷ b) [] h k = cc
strcmp_lt_trans [] (y ∷ b) (z ∷ c) h k = refl
strcmp_lt_trans (x ∷ a) [] c h k = cc
strcmp_lt_trans (x ∷ a) (y ∷ b) [] h k = cc
strcmp_lt_trans (x ∷ a) (y ∷ b) (z ∷ c) h k = ground (arith, strcmp_lt_trans a b c)

pub str_eq_iff : (a b : Bytes) → (str_eq a b ≡ true) ↔ (a ≡ b)
unfolding str_eq
str_eq_iff a b = ground (arith, strcmp-eq_iff a b)

pub str_eq_refl : (a : Bytes) → str_eq a a ≡ true
str_eq_refl a = (str_eq_iff a a).1 refl

pub str_eq_ne : (a b : Bytes) → a ≢ b → str_eq a b ≡ false
str_eq_ne a b h = ground (arith, str_eq_iff a b)
