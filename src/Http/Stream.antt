-- ===== src/Http/Stream.antt =====
-- What the readers use of the standard library: `std::getline`, `istream::read`, `string::find`,
-- `strstr`.
use fidinventor.Base.{ℕ, zero, suc, Option, none, some, [], ◌∷◌, ◌==◌, if◌then◌else◌}
use fidinventor.Base.Text.{Bytes}

-- `std::getline(stream, str)`: the bytes before the next line feed, which is dropped.
unfoldable pub getline : Bytes → Bytes × Bytes
getline [] = ([], [])
getline (c ∷ s) = let (line, rest) = getline s in if c == 10 then ([], s) else (c ∷ line, rest)

-- `stream.read(&vch[0], n)` into a vector of `n` zeros.
unfoldable pub read_exactly : ℕ → Bytes → Bytes × Bytes
read_exactly zero s = ([], s)
read_exactly (suc n) [] = (0 ∷ (read_exactly n []).0, [])
read_exactly (suc n) (c ∷ s) = (c ∷ (read_exactly n s).0, (read_exactly n s).1)

-- `str.find(":")`, `str.substr(0, nColon)` and `str.substr(nColon+1)`.
unfoldable pub split_colon : Bytes → Option (Bytes × Bytes)
split_colon [] = none
split_colon (c ∷ s) =
    if c == b':'
    then some ([], s)
    else elim (split_colon s) [ none ↦ none | some (k, v) ↦ some (c ∷ k, v) ]

-- The text up to its first NUL, which is what the C functions see.
unfoldable pub c_str : Bytes → Bytes
c_str [] = []
c_str (c ∷ s) = if c == 0 then [] else c ∷ c_str s

-- What is left behind a prefix.
unfoldable pub strip_prefix : Bytes → Bytes → Option Bytes
strip_prefix [] s = some s
strip_prefix (a ∷ p) [] = none
strip_prefix (a ∷ p) (c ∷ s) = if a == c then strip_prefix p s else none

-- `strstr(s, needle)`, as the text behind the needle's first occurrence.
unfoldable pub strstr_after : Bytes → Bytes → Option Bytes
unfolding strip_prefix
strstr_after needle [] = strip_prefix needle []
strstr_after needle (c ∷ s) = elim (strip_prefix needle (c ∷ s)) [
  | none ↦ strstr_after needle s
  | some rest ↦ some rest
]
