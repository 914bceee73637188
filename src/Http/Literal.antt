-- ===== src/Http/Literal.antt =====
-- Checks that decide for literal header lines what the readers need to know of them, and the
-- announced length of a list of headers.
use fidinventor.Base.{
  ℕ, ◌≡◌, refl, ap, ◌∙◌, Bool, true, false, not, ◌&&◌, [], ◌∷◌, arith, All, ◌==◌, if◌then◌else◌, ℤ,
}
use mathlib.Core.List.{map}
use fidinventor.Base.Text.{Bytes, codes, eq_bytes, c_atoi, is_space}
use fidinventor.Base.Dict.{Dict}
use fidinventor.Base.Boost.{StringAlgo, Lacks, StartsBare, EndsBare, lower}
use fidinventor.Base.Decimal.{decimal, decimal-Number, Number, digits, IsDigit}
use fidinventor.Http.Lines.{IsHeader, note_headers}

abbrev lacks : ℕ → Bytes → Bool
lacks c [] = true
lacks c (b ∷ s) = not (b == c) && lacks c s

lacks_sound : (c : ℕ) (s : Bytes) → lacks c s ≡ true → Lacks c s
lacks_sound c [] h = tt
lacks_sound c (b ∷ s) h = (ground arith, lacks_sound c s (ground arith))

abbrev starts_bare : Bytes → Bool
starts_bare [] = true
starts_bare (c ∷ s) = not (is_space c)

abbrev ends_bare : Bytes → Bool
ends_bare [] = true
ends_bare (c ∷ []) = not (is_space c)
ends_bare (c ∷ d ∷ s) = ends_bare (d ∷ s)

not_sound : (b : Bool) → not b ≡ true → b ≡ false
not_sound b h = ground arith

starts_bare_sound : (s : Bytes) → starts_bare s ≡ true → StartsBare s
starts_bare_sound [] h = tt
starts_bare_sound (c ∷ s) h = not_sound (is_space c) h

ends_bare_sound : (s : Bytes) → ends_bare s ≡ true → EndsBare s
ends_bare_sound [] h = tt
ends_bare_sound (c ∷ []) h = not_sound (is_space c) h
ends_bare_sound (c ∷ d ∷ s) h = ends_bare_sound (d ∷ s) h

-- A literal key, and a value with the three properties.
pub literal_key :
    (k v : Bytes)
    → (lacks 10 k && (lacks b':' k && (starts_bare k && ends_bare k))) ≡ true
    → Lacks 10 v
    → StartsBare v
    → EndsBare v
    → IsHeader (k, v)
literal_key k v h line starts ends = record {
  key_line = lacks_sound 10 k (ground arith);
  key_colon = lacks_sound b':' k (ground arith);
  key_starts = starts_bare_sound k (ground arith);
  key_ends = ends_bare_sound k (ground arith);
  value_line = line;
  value_starts = starts;
  value_ends = ends;
}

-- A header whose key and value are literals.
pub literal-IsHeader :
    (k v : Bytes)
    → (lacks 10 k && (lacks b':' k && (starts_bare k && ends_bare k))) ≡ true
    → (lacks 10 v && (starts_bare v && ends_bare v)) ≡ true
    → IsHeader (k, v)
literal-IsHeader k v hk hv =
    literal_key k v hk (lacks_sound 10 v (ground arith)) (starts_bare_sound v (ground arith))
      (ends_bare_sound v (ground arith))

-- Texts without white space.
abbrev pub Solid : Bytes → Type 0
Solid = All (λ c. is_space c ≡ false)

pub Solid-Lacks : (s : Bytes) → Solid s → Lacks 10 s
Solid-Lacks [] h = tt
Solid-Lacks (c ∷ s) (hc, hs) = (ground arith, Solid-Lacks s hs)

-- No space either.
pub Solid-Lacks_space : (s : Bytes) → Solid s → Lacks b' ' s
Solid-Lacks_space [] h = tt
Solid-Lacks_space (c ∷ s) (hc, hs) = (ground arith, Solid-Lacks_space s hs)

Solid-StartsBare : (s : Bytes) → Solid s → StartsBare s
Solid-StartsBare [] h = tt
Solid-StartsBare (c ∷ s) h = h.0

pub Solid-EndsBare : (s : Bytes) → Solid s → EndsBare s
Solid-EndsBare [] h = tt
Solid-EndsBare (c ∷ []) h = h.0
Solid-EndsBare (c ∷ d ∷ s) h = Solid-EndsBare (d ∷ s) h.1

pub Solid-value :
    (k v : Bytes)
    → (lacks 10 k && (lacks b':' k && (starts_bare k && ends_bare k))) ≡ true
    → Solid v
    → IsHeader (k, v)
Solid-value k v hk hv =
    literal_key k v hk (Solid-Lacks v hv) (Solid-StartsBare v hv) (Solid-EndsBare v hv)

digits-Solid : (s : Bytes) → All IsDigit s → Solid s
digits-Solid [] h = tt
digits-Solid (c ∷ s) (hc, hs) = (ground arith, digits-Solid s hs)

pub decimal-Solid : (n : ℕ) → Solid (decimal n)
decimal-Solid n = go (decimal-Number n)
  where
    go : {s : Bytes} → Number s → Solid s
    go (digits c t e hc ht) = rw e (digits-Solid (c ∷ t) (hc, ht))

abbrev pub is_length_key : Bytes → Bool
is_length_key k = eq_bytes (map lower k) (codes "content-length")

-- The length that a list of headers announces: the last such header counts.
abbrev pub announced : Dict Bytes → ℤ → ℤ
announced [] n = n
announced ((k, v) ∷ hs) n = announced hs (if is_length_key k then c_atoi v else n)

-- No header of the list announces a length.
abbrev pub NoLength : Dict Bytes → Type 0
NoLength = All (λ h. is_length_key h.0 ≡ false)

pub announced-NoLength : (hs : Dict Bytes) (n : ℤ) → NoLength hs → announced hs n ≡ n
announced-NoLength [] n h = refl
announced-NoLength ((k, v) ∷ hs) n (hk, hs') = rw hk (announced-NoLength hs n hs')

module _ (algo : StringAlgo) where
  open algo use {to_lower, to_lower-nil, to_lower-cons}

  to_lower-map : (s : Bytes) → to_lower s ≡ map lower s
  to_lower-map [] = to_lower-nil
  to_lower-map (c ∷ s) = rw (to_lower-cons c s, to_lower-map s)

  -- The reader's `nLen` is the announced length.
  pub note_headers-announced :
      (hs : Dict Bytes) (acc : Dict Bytes × ℤ) → (note_headers algo hs acc).1 ≡ announced hs acc.1
  unfolding note_headers
  note_headers-announced [] acc = refl
  note_headers-announced ((k, v) ∷ hs) (headers, n) =
      note_headers-announced hs _
      ∙ ap (λ s. announced hs (if eq_bytes s (codes "content-length") then c_atoi v else n))
          (to_lower-map k)
