-- ===== src/Dns/RoundTrip.antt =====
-- Names that are written and read back.
use mathlib.Core.Option
use k8s.Dns.{
  dotted_name, named, read_name, read_loop, move, setup_dns_query, htons, offset_of, still_reads,
  changeto_dns_name_format, name_format, to_dotted, dotted, drop, query_header,
}
use k8s.Common.{
  Bytes, ℕ, zero, suc, ◌+◌, ◌%◌, ◌≤◌, ◌<◌, ◌≡◌, Bool, true, false, not, ◌&&◌, some, List, [], ◌∷◌,
  ◌++◌, arith, length, is_nil, all, ltb, ◌==◌, refl, sym, ap, ◌∙◌, append-nil, append_assoc,
  c_string, inl, inr, length-append, Option-cases, leb,
}

-- A byte of a label: not 0, not a dot, and below the range that marks a jump.
abbrev is_label_byte : ℕ → Bool
is_label_byte c = not (c == 0) && ltb c 192 && not (c == b'.')

pub record IsLabel (l : Bytes) : Type 0 where
  pub ne_nil : is_nil l ≡ false
  pub bytes : all is_label_byte l ≡ true
  pub fits : length l ≤ 63

abbrev pub AllLabels : List Bytes → Type 0
AllLabels [] = Unit
AllLabels (l ∷ ls) = IsLabel l × AllLabels ls

-- The labels with dots between them.
abbrev pub host_name : Bytes → List Bytes → Bytes
host_name l [] = l
host_name l (m ∷ ls) = l ++ b'.' ∷ host_name m ls

-- The labels with their lengths in front, without the final 0.
abbrev pub wire : List Bytes → Bytes
wire [] = []
wire (l ∷ ls) = length l ∷ l ++ wire ls

-- A byte that the reader stores.
abbrev pub is_plain : ℕ → Bool
is_plain c = not (c == 0) && ltb c 192

name_format-label :
    (done l host : Bytes)
    → all is_label_byte l ≡ true
    → name_format done (l ++ b'.' ∷ host)
      ≡ (length (done ++ l) % 256) ∷ (done ++ l) ++ name_format [] host
unfolding name_format
name_format-label done [] host h = rw (append-nil done) refl
name_format-label done (c ∷ l) host h =
    let later = name_format-label (done ++ c ∷ []) l host (ground (arith, h)) in
    ground (arith, later, append_assoc done (c ∷ []) l, h)

pub name_format-one :
    (l host : Bytes)
    → IsLabel l
    → name_format [] (l ++ b'.' ∷ host) ≡ length l ∷ l ++ name_format [] host
name_format-one l host il =
    let short : length l % 256 ≡ length l = omega (arith, il.fits) in
    name_format-label [] l host il.bytes ∙ rw short refl

name_format-host_name :
    (l : Bytes) (ls : List Bytes)
    → IsLabel l
    → AllLabels ls
    → name_format [] (host_name l ls ++ b'.' ∷ []) ≡ wire (l ∷ ls) ++ 0 ∷ []
name_format-host_name l [] il ils =
    name_format-one l [] il ∙ unfold name_format in rw (append-nil l) refl
name_format-host_name l (m ∷ ls) il ils = rw (append_assoc l (b'.' ∷ host_name m ls) (b'.' ∷ [])) (
    name_format-one l (host_name m ls ++ b'.' ∷ []) il
    ∙ rw (name_format-host_name m ls ils.0 ils.1)
        (ap (λ s. length l ∷ s) (sym (append_assoc l (wire (m ∷ ls)) (0 ∷ [])))))

dotted-label :
    (l rest : Bytes) → dotted (length l) (l ++ rest) ≡ Option.map (λ s. l ++ s) (dotted 0 rest)
unfolding dotted
dotted-label [] rest = elim (Option-cases (dotted 0 rest)) [
  | inl e ↦ rw e refl
  | inr (s, e) ↦ rw e refl
]
dotted-label (c ∷ l) rest =
    rw (dotted-label l rest)
      (elim (Option-cases (dotted 0 rest)) [ inl e ↦ rw e refl | inr (s, e) ↦ rw e refl ])

pub dotted-wire :
    (l : Bytes) (ls : List Bytes) → dotted (length l) (l ++ wire ls) ≡ some (host_name l ls)
unfolding dotted
dotted-wire l [] = dotted-label l [] ∙ ap some (append-nil l)
dotted-wire l (m ∷ ls) = dotted-label l (wire (m ∷ ls)) ∙ rw (dotted-wire m ls) refl

-- Bytes that are neither 0 nor a jump are stored one after the other.
read_loop-plain :
    (fuel : ℕ) (buffer raw rest : Bytes) (p : ℕ)
    → all is_plain raw ≡ true
    → length raw < fuel
    → p + length raw < 256
    → read_loop fuel buffer (raw ++ 0 ∷ rest) false p ≡ named raw (length raw)
unfolding read_loop
read_loop-plain zero buffer raw rest p h enough fits = absurd (omega arith)
read_loop-plain (suc fuel) buffer [] rest p h enough fits = ground (arith, fits)
read_loop-plain (suc fuel) buffer (c ∷ raw) rest p h enough fits =
    let later =
      read_loop-plain fuel buffer raw rest (p + 1) (ground (arith, h)) (omega arith)
        (omega arith) in
    ground (arith, later, h, fits)

all-append : (f : ℕ → Bool) (a b : Bytes) → all f a ≡ true → all f b ≡ true → all f (a ++ b) ≡ true
all-append f [] b ha hb = hb
all-append f (c ∷ a) b ha hb = ground (arith, ha, all-append f a b (ground (arith, ha)) hb)

label-is_plain : (l : Bytes) → all is_label_byte l ≡ true → all is_plain l ≡ true
label-is_plain [] h = refl
label-is_plain (c ∷ l) h = ground (arith, h, label-is_plain l (ground (arith, h)))

length-is_plain : (l : Bytes) → IsLabel l → is_plain (length l) ≡ true
length-is_plain [] il = absurd (cc il.ne_nil)
length-is_plain (c ∷ l) il = ground (arith, il.fits)

pub wire-is_plain : (ls : List Bytes) → AllLabels ls → all is_plain (wire ls) ≡ true
wire-is_plain [] a = refl
wire-is_plain (l ∷ ls) a =
    let rest =
      all-append is_plain l (wire ls) (label-is_plain l a.0.bytes) (wire-is_plain ls a.1) in
    ground (arith, rest, length-is_plain l a.0)

pub c_string-plain : (s t : Bytes) → all is_plain s ≡ true → c_string (s ++ 0 ∷ t) ≡ s
unfolding c_string
c_string-plain [] t h = refl
c_string-plain (c ∷ s) t h = ground (arith, h, c_string-plain s t (ground (arith, h)))

pub length-wire :
    (l : Bytes) (ls : List Bytes) → length (wire (l ∷ ls)) ≡ length (host_name l ls) + 1
length-wire l [] = rw (append-nil l) (omega arith)
length-wire l (m ∷ ls) = omega (
  arith,
  length-append l (wire (m ∷ ls)),
  length-append l (b'.' ∷ host_name m ls),
  length-wire m ls,
)

read_name-wire :
    (fuel : ℕ) (buffer rest l : Bytes) (ls : List Bytes)
    → IsLabel l
    → AllLabels ls
    → length (host_name l ls) ≤ 253
    → length (host_name l ls) + 1 < fuel
    → read_name fuel buffer (wire (l ∷ ls) ++ 0 ∷ rest)
      ≡ named (host_name l ls) (length (host_name l ls) + 2)
unfolding read_name to_dotted
read_name-wire fuel buffer rest l ls il ils fits enough =
    let size = length-wire l ls in
    let loop =
      read_loop-plain fuel buffer (wire (l ∷ ls)) rest 0 (wire-is_plain (l ∷ ls) (il, ils))
        (omega (arith, size, enough)) (omega (arith, size, fits)) in
    rw loop (
      ap (λ o. dotted_name o (length (wire (l ∷ ls)))) (dotted-wire l ls)
      ∙ ap (named (host_name l ls)) (omega (arith, size)))

-- The reader of a name gets back from a query the name of the host that the query is about, and
-- counts the bytes that the name takes in the message, for a host of labels of 1 to 63 bytes, none
-- of them a dot, 0, or above 191, with at most 253 bytes in all.
pub setup_dns_query-read_name :
    (pid fuel : ℕ) (l : Bytes) (ls : List Bytes)
    → IsLabel l
    → AllLabels ls
    → length (host_name l ls) ≤ 253
    → length (host_name l ls) + 1 < fuel
    → let query = setup_dns_query pid (host_name l ls) in
      read_name fuel query (drop 12 query) ≡ named (host_name l ls) (length (host_name l ls) + 2)
unfolding setup_dns_query query_header
setup_dns_query-read_name pid fuel l ls il ils fits enough =
    let plain = wire-is_plain (l ∷ ls) (il, ils) in
    let text : c_string (changeto_dns_name_format (host_name l ls)) ≡ wire (l ∷ ls) =
      unfold changeto_dns_name_format in
      (ap c_string (name_format-host_name l ls il ils) ∙ c_string-plain (wire (l ∷ ls)) [] plain) in
    unfold drop in rw text (read_name-wire fuel _ (htons 1 ++ htons 1) l ls il ils fits enough)

self_pointer-move :
    (buffer : Bytes) (i a b : ℕ) (rest : Bytes) (jumped : Bool)
    → drop i buffer ≡ a ∷ b ∷ rest
    → 192 ≤ a
    → offset_of a b ≡ i
    → move buffer a (b ∷ rest) jumped ≡ (a ∷ b ∷ rest, true, false)
unfolding move
self_pointer-move buffer i a b rest jumped at jumps self =
    let big : leb 192 a ≡ true = ground arith in
    rw big (ap (λ s. (s, true, false)) (ap (λ n. drop n buffer) self ∙ at))

self_pointer-loop :
    (fuel : ℕ) (buffer : Bytes) (i a b : ℕ) (rest : Bytes) (jumped : Bool)
    → drop i buffer ≡ a ∷ b ∷ rest
    → 192 ≤ a
    → offset_of a b ≡ i
    → read_loop fuel buffer (a ∷ b ∷ rest) jumped 0 ≡ still_reads
unfolding read_loop
self_pointer-loop zero buffer i a b rest jumped at jumps self = refl
self_pointer-loop (suc fuel) buffer i a b rest jumped at jumps self =
    let later = self_pointer-loop fuel buffer i a b rest true at jumps self in
    rw (self_pointer-move buffer i a b rest jumped at jumps self) (ground (arith, later, jumps))

-- On a name that jumps to itself the reader does not end, whatever the fuel.
pub read_name-self_pointer :
    (fuel : ℕ) (buffer : Bytes) (i a b : ℕ) (rest : Bytes)
    → drop i buffer ≡ a ∷ b ∷ rest
    → 192 ≤ a
    → offset_of a b ≡ i
    → read_name fuel buffer (drop i buffer) ≡ still_reads
unfolding read_name
read_name-self_pointer fuel buffer i a b rest at jumps self =
    rw (at, self_pointer-loop fuel buffer i a b rest false at jumps self) refl
