-- ===== src/Common/Number.antt =====
-- C's `int` where the program needs its sign, `atoi`, and what `printf` writes for numbers. Values
-- outside the range of the type are not modelled: `atoi` and `strtol` have no defined result there.
use Prim.Native.Nat.{ℕ, zero, suc, ◌+◌, ◌-◌, ◌*◌, ◌/◌, ◌%◌}
use mathlib.Core.List.{[], ◌∷◌}
use Prim.Native.Nat.{◌^◌}
use mathlib.Core.Option.{Option, none, some}
use mathlib.Core.Bool.{◌||◌, Bool, true, false, ◌&&◌}
use k8s.Common.Tests.{◌==◌, leb, ltb, if◌then◌else◌}
use k8s.Common.Str.{Bytes}
use k8s.Common.Scan.{is_space, skip_space}

-- `negsuc n` is -(n + 1).
pub data ℤ : Type 0 where
  pos : ℕ → ℤ
  negsuc : ℕ → ℤ

abbrev pub neg : ℕ → ℤ
neg n = if n == 0 then pos 0 else negsuc (n - 1)

-- `z > 0`, and `z == 0`.
abbrev pub is_pos : ℤ → Bool
is_pos (pos n) = ltb 0 n
is_pos (negsuc n) = false

abbrev pub is_neg : ℤ → Bool
is_neg (pos n) = false
is_neg (negsuc n) = true

abbrev pub is_zero : ℤ → Bool
is_zero (pos n) = n == 0
is_zero (negsuc n) = false

unfoldable pub is_digit : ℕ → Bool
is_digit c = leb b'0' c && leb c b'9'

unfoldable pub read_digits : ℕ → Bytes → ℕ
unfolding is_digit
read_digits acc [] = acc
read_digits acc (c ∷ cs) =
    let rest = read_digits (acc * 10 + (c - b'0')) cs in if is_digit c then rest else acc

unfoldable pub atoi : Bytes → ℤ
unfolding read_digits skip_space is_space
atoi s = elim (skip_space s) [
  | [] ↦ pos 0
  | c ∷ cs ↦
      if c == b'-'
      then neg (read_digits 0 cs)
      else if c == b'+'
      then pos (read_digits 0 cs)
      else pos (read_digits 0 (c ∷ cs))
]

-- The digits of `n` in front of `rest`, in a base up to 16; `fuel` bounds their number.
abbrev pub digit : ℕ → ℕ
digit d = if ltb d 10 then b'0' + d else b'A' + (d - 10)

unfoldable pub print_base : ℕ → ℕ → ℕ → Bytes → Bytes
print_base zero b n rest = rest
print_base (suc f) b n rest =
    let more = print_base f b (n / b) (digit (n % b) ∷ rest) in
    if ltb n b then digit (n % b) ∷ rest else more

-- `%d` of a number that is not negative, and `%X`; an `int` has at most ten digits.
abbrev pub print_dec : ℕ → Bytes
print_dec n = print_base 10 10 n []

abbrev pub print_hex : ℕ → Bytes
print_hex n = print_base 8 16 n []

abbrev pub add_ℕ : ℤ → ℕ → ℤ
add_ℕ (pos n) k = pos (n + k)
add_ℕ (negsuc n) k = if leb k n then negsuc (n - k) else pos (k - n - 1)

-- `%d`, and the `unsigned int` of the same bits, which `%X` prints.
unfoldable pub print_int : ℤ → Bytes
unfolding print_base
print_int (pos n) = print_dec n
print_int (negsuc n) = b'-' ∷ print_dec (n + 1)

unfoldable pub as_u32 : ℤ → ℕ
as_u32 (pos n) = n % 2 ^ 32
as_u32 (negsuc n) = 2 ^ 32 - 1 - n % 2 ^ 32

-- The value of a hexadecimal digit.
unfoldable pub hex_digit : ℕ → Option ℕ
unfolding is_digit
hex_digit c =
    if is_digit c
    then some (c - b'0')
    else if leb b'a' c && leb c b'f'
    then some (c - b'a' + 10)
    else if leb b'A' c && leb c b'F'
    then some (c - b'A' + 10)
    else none

unfoldable pub read_hex : ℕ → Bytes → ℕ
unfolding hex_digit
read_hex acc [] = acc
read_hex acc (c ∷ cs) = elim (hex_digit c) [ none ↦ acc | some d ↦ read_hex (acc * 16 + d) cs ]

-- Past an optional "0x" in front of a hexadecimal digit.
skip_0x : Bytes → Bytes
skip_0x (z ∷ x ∷ d ∷ cs) =
    if z == b'0' && (x == b'x' || x == b'X')
    then elim (hex_digit d) [ none ↦ z ∷ x ∷ d ∷ cs | some _ ↦ d ∷ cs ]
    else z ∷ x ∷ d ∷ cs
skip_0x s = s

-- `strtol(s, NULL, 16)`
unfoldable pub strtol16 : Bytes → ℤ
unfolding read_hex skip_space is_space skip_0x
strtol16 s = elim (skip_space s) [
  | [] ↦ pos 0
  | c ∷ cs ↦
      if c == b'-'
      then neg (read_hex 0 (skip_0x cs))
      else if c == b'+'
      then pos (read_hex 0 (skip_0x cs))
      else pos (read_hex 0 (skip_0x (c ∷ cs)))
]
