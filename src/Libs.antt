-- ===== src/Libs.antt =====
-- src/libs/util.c: reading a line of a file or of a command, and writing a file. What a file holds
-- is an argument; a file that cannot be opened is `none`.
use k8s.Common.{
  Bytes, c_string, ℕ, zero, suc, ◌-◌, Option, none, some, [], ◌∷◌, ◌++◌, is_nil, ◌==◌,
  if◌then◌else◌,
}

unfoldable pub cut_at : ℕ → Bytes → Bytes
cut_at d [] = []
cut_at d (c ∷ cs) = let rest = cut_at d cs in if c == d then [] else c ∷ rest

-- What `strtok(buf, "\n")` leaves of the string in `buf`: it steps over leading newlines and puts a
-- NUL at the next one.
unfoldable pub strtok_in_place : Bytes → Bytes
unfolding cut_at
strtok_in_place [] = []
strtok_in_place (c ∷ cs) =
    let rest = strtok_in_place cs in if c == b'\n' then c ∷ rest else cut_at b'\n' (c ∷ cs)

-- `fgets` with room for `n` bytes and a NUL: up to the first newline, which it keeps.
unfoldable pub fgets : ℕ → Bytes → Bytes
fgets zero s = []
fgets (suc n) [] = []
fgets (suc n) (c ∷ cs) = let rest = fgets n cs in if c == b'\n' then c ∷ [] else c ∷ rest

-- `popen_cmd` into a zeroed buffer of `len`: the line, or `none` for its -1. The result of the
-- function is the length of the line.
unfoldable pub popen_cmd : Option Bytes → ℕ → Option Bytes
unfolding fgets strtok_in_place
popen_cmd none len = none
popen_cmd (some output) len = some (strtok_in_place (c_string (fgets (len - 1) output)))

-- `fopen_read` into a buffer of `size`; `none` is a file that cannot be opened or is empty.
unfoldable pub fopen_read : Option Bytes → ℕ → Option Bytes
unfolding fgets strtok_in_place
fopen_read none size = none
fopen_read (some content) size =
    let line = fgets (size - 1) content in
    if is_nil line then none else some (strtok_in_place (c_string line))

-- `fopen_read_malloc`: the first line of the whole content, in a buffer of its own.
unfoldable pub fopen_read_malloc : Option Bytes → Option Bytes
unfolding strtok_in_place
fopen_read_malloc none = none
fopen_read_malloc (some content) = some (strtok_in_place (c_string content))

-- What `fopen_cmd` writes to its file.
unfoldable pub fopen_cmd : Bytes → Bytes → Bytes
fopen_cmd banner buffer = banner ++ b'\n' ∷ buffer

-- `strrchr(s, d)`: what stands behind the last `d`, and what stands before it with it.
unfoldable pub strrchr : ℕ → Bytes → Option (Bytes × Bytes)
strrchr d [] = none
strrchr d (c ∷ cs) = elim (strrchr d cs) [
  | some (upto, behind) ↦ some (c ∷ upto, behind)
  | none ↦ if c == d then some (c ∷ [], cs) else none
]
