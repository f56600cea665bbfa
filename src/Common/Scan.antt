-- ===== src/Common/Scan.antt =====
-- What the program uses of `sscanf` and `sprintf` with fields between bars, and of `strtok`.
use Prim.Native.Nat.{ℕ, zero, suc, ◌≤◌}
use mathlib.Core.Path.{◌≡◌, refl, ap, sym, ◌∙◌}
use mathlib.Core.List.{List, [], ◌∷◌, ◌++◌, append-nil, append_assoc}
use mathlib.Core.Bool.{Bool, true, false, not, ◌&&◌, ◌||◌}
use mathlib.Core.Logic.{inl, inr}
use native.Mathlib.Omega.{arith}
use k8s.Common.Tests.{Bool-cases, ◌==◌, leb, if◌then◌else◌}
use k8s.Common.Lists.{get_or, length, is_nil, all}
use k8s.Common.Str.{Bytes}

-- `isspace` in the C locale.
unfoldable pub is_space : ℕ → Bool
is_space c = c == b' ' || leb 9 c && leb c 13

-- A conversion reads the longest prefix of at most `n` bytes of its set.
unfoldable pub take_set : ℕ → (ℕ → Bool) → Bytes → Bytes × Bytes
take_set zero p s = ([], s)
take_set (suc n) p [] = ([], [])
take_set (suc n) p (c ∷ cs) =
    let r = take_set n p cs in if p c then (c ∷ r.0, r.1) else ([], c ∷ cs)

-- The set of `%[^|]`, and that of `%s`.
abbrev pub not_bar : ℕ → Bool
not_bar c = not (c == b'|')

abbrev pub not_space : ℕ → Bool
not_space c = not (is_space c)

unfoldable pub skip_space : Bytes → Bytes
skip_space [] = []
skip_space (c ∷ cs) = if is_space c then skip_space cs else c ∷ cs

-- A literal byte of the format; where it is not found the scan ends.
abbrev pub expect {ℓ} : {A : Type ℓ} → ℕ → Bytes → (Bytes → List A) → List A
expect b [] k = []
expect b (c ∷ cs) k = if c == b then k cs else []

-- `sscanf` with `n` conversions `%127[^|]|` and a last one `%127s`: the strings that it stores.
-- Its result is their number, or EOF where there is none and the input has ended.
unfoldable pub scan_fields : ℕ → Bytes → List Bytes
unfolding skip_space
scan_fields zero s =
    let w = take_set 127 not_space (skip_space s) in if is_nil w.0 then [] else w.0 ∷ []
scan_fields (suc n) s =
    let f = take_set 127 not_bar s in
    let rest = expect b'|' f.1 (scan_fields n) in if is_nil f.0 then [] else f.0 ∷ rest

-- `sprintf` with "%s|" for each of the fields, and "%s" for the last one.
abbrev pub print_fields : List Bytes → Bytes → Bytes
print_fields [] w = w
print_fields (f ∷ fs) w = f ++ b'|' ∷ print_fields fs w

-- What a field must be to be read back.
pub record IsField (f : Bytes) : Type 0 where
  pub ne_nil : is_nil f ≡ false
  pub no_bar : all not_bar f ≡ true
  pub fits : length f ≤ 127

pub record IsWord (w : Bytes) : Type 0 where
  pub no_space : all not_space w ≡ true
  pub fits : length w ≤ 127

abbrev pub AllFields : List Bytes → Type 0
AllFields [] = Unit
AllFields (f ∷ fs) = IsField f × AllFields fs

-- The scan of a set stops in front of `s`.
abbrev Stops : (ℕ → Bool) → Bytes → Type 0
Stops p [] = Unit
Stops p (c ∷ cs) = p c ≡ false

take_set-append :
    (n : ℕ) (p : ℕ → Bool) (f rest : Bytes)
    → all p f ≡ true
    → length f ≤ n
    → Stops p rest
    → take_set n p (f ++ rest) ≡ (f, rest)
unfolding take_set
take_set-append zero p [] rest a fits st = refl
take_set-append zero p (c ∷ f) rest a fits st = absurd (omega arith)
take_set-append (suc n) p [] [] a fits st = refl
take_set-append (suc n) p [] (c ∷ rest) a fits st = rw st
take_set-append (suc n) p (c ∷ f) rest a fits st = ground (arith, take_set-append n p f rest)

take_set_whole :
    (n : ℕ) (p : ℕ → Bool) (f : Bytes) → all p f ≡ true → length f ≤ n → take_set n p f ≡ (f, [])
take_set_whole n p f a fits =
    ap (take_set n p) (sym (append-nil f)) ∙ take_set-append n p f [] a fits tt

skip_space_word : (w : Bytes) → all not_space w ≡ true → skip_space w ≡ w
unfolding skip_space
skip_space_word [] h = refl
skip_space_word (c ∷ w) h = ground arith

-- What `sprintf` wrote `sscanf` reads back; an empty last field is not stored.
pub scan_fields-print_fields :
    (fs : List Bytes) (w : Bytes)
    → AllFields fs
    → IsWord w
    → scan_fields (length fs) (print_fields fs w) ≡ fs ++ (if is_nil w then [] else w ∷ [])
unfolding scan_fields
scan_fields-print_fields [] w fields word =
    rw (skip_space_word w word.no_space, take_set_whole 127 not_space w word.no_space word.fits)
scan_fields-print_fields (f ∷ fs) w (field, fields) word =
    let read =
      take_set-append 127 not_bar f (b'|' ∷ print_fields fs w) field.no_bar field.fits refl in
    rw (read, field.ne_nil) (ap (◌∷◌ f) (scan_fields-print_fields fs w fields word))

pub take_set-length : (n : ℕ) (p : ℕ → Bool) (s : Bytes) → length (take_set n p s).0 ≤ n
unfolding take_set
take_set-length zero p s = omega arith
take_set-length (suc n) p [] = omega arith
take_set-length (suc n) p (c ∷ cs) = ground (arith, take_set-length n p cs)

abbrev AllShort : List Bytes → Type 0
AllShort fs = (i : ℕ) → length (get_or fs i []) ≤ 127

nil-AllShort : AllShort []
nil-AllShort i = omega arith

cons-AllShort : (f : Bytes) (fs : List Bytes) → length f ≤ 127 → AllShort fs → AllShort (f ∷ fs)
cons-AllShort f fs short all_short zero = short
cons-AllShort f fs short all_short (suc i) = all_short i

expect-AllShort :
    (b : ℕ) (s : Bytes) (k : Bytes → List Bytes)
    → ((t : Bytes) → AllShort (k t))
    → AllShort (expect b s k)
expect-AllShort b [] k h = nil-AllShort
expect-AllShort b (c ∷ cs) k h = elim (Bool-cases (c == b)) [
  | inl y ↦ rw y (h cs)
  | inr n ↦ rw n nil-AllShort
]

-- What `sscanf` stores fits its buffers of 128 bytes.
pub scan_fields-length : (n : ℕ) (s : Bytes) (i : ℕ) → length (get_or (scan_fields n s) i []) ≤ 127
unfolding scan_fields
scan_fields-length zero s =
    let w = take_set 127 not_space (skip_space s) in
    elim (Bool-cases (is_nil w.0)) [
      | inl y ↦ rw y nil-AllShort
      | inr n ↦
          rw n (cons-AllShort w.0 [] (take_set-length 127 not_space (skip_space s)) nil-AllShort)
    ]
scan_fields-length (suc n) s =
    let f = take_set 127 not_bar s in
    elim (Bool-cases (is_nil f.0)) [
      | inl y ↦ rw y nil-AllShort
      | inr ne ↦ rw ne (
          cons-AllShort f.0 _ (take_set-length 127 not_bar s)
            (expect-AllShort b'|' f.1 (scan_fields n) (scan_fields-length n)))
    ]

-- The strings that the calls of `strtok` return one after the other, with one delimiter; `cur` is
-- what the present one has so far.
abbrev token : Bytes → List Bytes → List Bytes
token [] rest = rest
token (c ∷ cs) rest = (c ∷ cs) ∷ rest

tokens_from : ℕ → Bytes → Bytes → List Bytes
tokens_from d cur [] = token cur []
tokens_from d cur (c ∷ cs) =
    let rest = tokens_from d (if c == d then [] else cur ++ c ∷ []) cs in
    if c == d then token cur rest else rest

unfoldable pub strtok : ℕ → Bytes → List Bytes
unfolding tokens_from
strtok d s = tokens_from d [] s

abbrev pub Lacks : ℕ → Bytes → Type 0
Lacks d s = all (λ c. not (c == d)) s ≡ true

tokens_from-append :
    (d : ℕ) (cur f rest : Bytes)
    → Lacks d f
    → tokens_from d cur (f ++ d ∷ rest) ≡ token (cur ++ f) (tokens_from d [] rest)
unfolding tokens_from
tokens_from-append d cur [] rest h = rw append-nil (ground arith)
tokens_from-append d cur (c ∷ f) rest h =
    ground (arith, tokens_from-append d (cur ++ c ∷ []) f rest, append_assoc cur (c ∷ []) f)

-- A text that ends in the delimiter is the first of the strings.
strtok-append :
    (d c : ℕ) (f rest : Bytes)
    → Lacks d (c ∷ f)
    → strtok d ((c ∷ f) ++ d ∷ rest) ≡ (c ∷ f) ∷ strtok d rest
unfolding strtok
strtok-append d c f rest h = tokens_from-append d [] (c ∷ f) rest h

pub strtok-line :
    (d : ℕ) (f rest : Bytes)
    → is_nil f ≡ false
    → Lacks d f
    → strtok d (f ++ d ∷ rest) ≡ f ∷ strtok d rest
strtok-line d [] rest ne h = absurd (cc)
strtok-line d (c ∷ f) rest ne h = strtok-append d c f rest h
