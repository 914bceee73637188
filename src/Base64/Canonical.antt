-- ===== src/Base64/Canonical.antt =====
-- What the flag `*pfInvalid` promises: an accepted text begins with the encoding of what is
-- returned.
use fidinventor.Base.{
  ℕ, zero, suc, ◌+◌, ◌*◌, ◌/◌, ◌%◌, ◌≤◌, ◌<◌, ◌≡◌, refl, ap, ◌∙◌, inl, inr, false, none, [], ◌∷◌,
  ◌++◌, append_assoc, append-nil, arith, All, length, Option-cases,
}
use fidinventor.Base.Text.{Bytes, IsByte}
use fidinventor.Base64.{
  symbol, encode_loop, encode_base64, sextet, decode_loop, verdict, decode_base64,
}
use fidinventor.Base64.Bits.{symbol-sextet}
use fidinventor.Base64.RoundTrip.{
  take_symbol, encode_one, encode_two, encode_three, two_symbols, three_symbols, four_symbols,
}

-- The decoder takes no character of the text.
abbrev Stops : Bytes → Type 0
Stops [] = Unit
Stops (c ∷ p) = sextet c ≡ none

Stops-scan :
    (p out : Bytes) (mode left : ℕ)
    → Stops p
    → decode_loop p out mode left ≡ record { out = out; mode = mode; left = left; rest = p }
unfolding decode_loop
Stops-scan [] out mode left h = refl
Stops-scan (c ∷ p) out mode left h = rw h

-- Where a text stops, or the symbol that it begins with.
data Front : Bytes → Type 0 where
  stop : {p : Bytes} → Stops p → Front p
  begins : {p : Bytes} (i : ℕ) (q : Bytes) → p ≡ symbol i ∷ q → i < 64 → Front p

front : (p : Bytes) → All IsByte p → Front p
front [] h = stop tt
front (c ∷ p) (hc, hp) = elim (Option-cases (sextet c)) [
  | inl e ↦ stop e
  | inr (d, e) ↦ let (fits, same) = symbol-sextet c d hc e in begins d p (rw same) fits
]

-- Acceptance after two and after three symbols of a group.
accept_one :
    (p out r : Bytes) (left : ℕ)
    → verdict (record { out = out; mode = 2; left = left; rest = p }) ≡ (r, false)
    → (rest : Bytes) × (p ≡ b'=' ∷ b'=' ∷ rest) × (left ≡ 0) × (r ≡ out)
unfolding verdict
accept_one [] out r left h = absurd (ground arith)
accept_one (c ∷ []) out r left h = absurd (ground arith)
accept_one (c ∷ d ∷ p) out r left h = (p, ground arith, ground arith, ground arith)

accept_two :
    (p out r : Bytes) (left : ℕ)
    → verdict (record { out = out; mode = 3; left = left; rest = p }) ≡ (r, false)
    → (rest : Bytes) × (p ≡ b'=' ∷ rest) × (left ≡ 0) × (r ≡ out)
unfolding verdict
accept_two [] out r left h = absurd (ground arith)
accept_two (c ∷ p) out r left h = (p, ground arith, ground arith, ground arith)

-- The result is `out` with bytes behind it, whose encoding begins the text.
abbrev Canonical : Bytes → Bytes → Bytes → ℕ → Type 0
Canonical p out r l =
    (s : Bytes) × (rest : Bytes) × All IsByte s × (r ≡ out ++ s) × (p ≡ encode_loop s 0 l ++ rest)

abbrev Accepts : Bytes → Bytes → Bytes → ℕ → Type 0
Accepts p out r l' = verdict (decode_loop p out 0 l') ≡ (r, false)

after_none : (p out r : Bytes) (l l' : ℕ) → Stops p → Accepts p out r l' → Canonical p out r l
unfolding verdict encode_loop
after_none p out r l l' h v =
    let v' = rw (Stops-scan p out 0 l' h) at v in ([], p, tt, rw append-nil (ground arith), refl)

after_one :
    (i : ℕ) (p out r : Bytes) (l' : ℕ) → i < 64 → Stops p → Accepts (symbol i ∷ p) out r l' → ⊥
unfolding verdict decode_loop
after_one i p out r l' hi h v =
    let v' = rw (take_symbol i 0 l' p out hi, Stops-scan p _ 1 i h) at v in ground arith

module _ (i j : ℕ) (p out r : Bytes) (l l' : ℕ) (hi : i < 64) (hj : j < 64) (h : Stops p) where
  after_two :
      Accepts (symbol i ∷ symbol j ∷ p) out r l' → Canonical (symbol i ∷ symbol j ∷ p) out r l
  after_two v =
      let x : ℕ = i * 4 + j / 16 in
      let v' = rw (two_symbols i j p out l' hi hj, Stops-scan p _ 2 (j % 16) h) at v in
      let (rest, pads, zeros, result) = accept_one p (out ++ x ∷ []) r (j % 16) v' in
      let hx : x < 256 = omega arith in
      let front_eq : x / 4 ≡ i = omega arith in
      let last_eq : x % 4 * 16 ≡ j = omega arith in
      (x ∷ [], rest, (hx, tt), result, rw (pads, encode_one x l hx, front_eq, last_eq))

module _ (i j k : ℕ) (p out r : Bytes) (l l' : ℕ) (hi : i < 64) (hj : j < 64) (hk : k < 64)
    (h : Stops p) where
  after_three :
      Accepts (symbol i ∷ symbol j ∷ symbol k ∷ p) out r l'
      → Canonical (symbol i ∷ symbol j ∷ symbol k ∷ p) out r l
  after_three v =
      let x : ℕ = i * 4 + j / 16 in
      let y : ℕ = j % 16 * 16 + k / 4 in
      let v' = rw (three_symbols i j k p out l' hi hj hk, Stops-scan p _ 3 (k % 4) h) at v in
      let (rest, pads, zeros, result) = accept_two p (out ++ x ∷ y ∷ []) r (k % 4) v' in
      let hx : x < 256 = omega arith in
      let hy : y < 256 = omega arith in
      let first_eq : x / 4 ≡ i = omega arith in
      let next_eq : x % 4 * 16 + y / 16 ≡ j = omega arith in
      let last_eq : y % 16 * 4 ≡ k = omega arith in
      (
        x ∷ y ∷ [],
        rest,
        (hx, (hy, tt)),
        result,
        rw (pads, encode_two x y l hx hy, first_eq, next_eq, last_eq),
      )

module _ (i j k m : ℕ) (p out r : Bytes) (l : ℕ) (hi : i < 64) (hj : j < 64) (hk : k < 64)
    (hm : m < 64) where
  abbrev first : ℕ
  first = i * 4 + j / 16

  abbrev second : ℕ
  second = j % 16 * 16 + k / 4

  abbrev third : ℕ
  third = k % 4 * 64 + m

  -- A whole group, and what was found of the text behind it.
  after_group :
      Canonical p (out ++ first ∷ second ∷ third ∷ []) r (second % 16 * 4)
      → Canonical (symbol i ∷ symbol j ∷ symbol k ∷ symbol m ∷ p) out r l
  after_group (s, rest, hs, result, text) =
      let x : ℕ = first in
      let y : ℕ = second in
      let z : ℕ = third in
      let hx : x < 256 = omega arith in
      let hy : y < 256 = omega arith in
      let hz : z < 256 = omega arith in
      let e₁ : x / 4 ≡ i = omega arith in
      let e₂ : x % 4 * 16 + y / 16 ≡ j = omega arith in
      let e₃ : y % 16 * 4 + z / 64 ≡ k = omega arith in
      let e₄ : z % 64 ≡ m = omega arith in
      (
        x ∷ y ∷ z ∷ s,
        rest,
        (hx, (hy, (hz, hs))),
        result ∙ append_assoc out (x ∷ y ∷ z ∷ []) s,
        rw (text, encode_three x y z l s hx hy hz, e₁, e₂, e₃, e₄),
      )

-- `n` bounds the length of the text.
canonical :
    (n : ℕ) (p out r : Bytes) (l l' : ℕ)
    → length p ≤ n
    → All IsByte p
    → Accepts p out r l'
    → Canonical p out r l
canonical zero [] out r l l' len hp v = after_none [] out r l l' tt v
canonical zero (c ∷ p) out r l l' len hp v = absurd (omega arith)
canonical (suc n) p out r l l' len hp v = elim (front p hp) [
  | stop h ↦ after_none p out r l l' h v
  | begins i q e hi ↦
      let hq = (rw e at hp).1 in
      let v₁ = rw e at v in
      elim (front q hq) [
        | stop h ↦ absurd (after_one i q out r l' hi h v₁)
        | begins j q₂ e₂ hj ↦
            let hq₂ = (rw e₂ at hq).1 in
            let v₂ = rw e₂ at v₁ in
            elim (front q₂ hq₂) [
              | stop h ↦ rw (e, e₂) (after_two i j q₂ out r l l' hi hj h v₂)
              | begins k q₃ e₃ hk ↦
                  let hq₃ = (rw e₃ at hq₂).1 in
                  let v₃ = rw e₃ at v₂ in
                  elim (front q₃ hq₃) [
                    | stop h ↦ rw (e, e₂, e₃) (after_three i j k q₃ out r l l' hi hj hk h v₃)
                    | begins m q₄ e₄ hm ↦
                        let v₄ = rw (e₄, four_symbols i j k m q₄ out l' hi hj hk hm) at v₃ in
                        rw (e, e₂, e₃, e₄)
                          (after_group i j k m q₄ out r l hi hj hk hm (
                            canonical n q₄ _ r _ _
                              (omega (arith, ap length e, ap length e₂, ap length e₃, ap length e₄))
                              (rw e₄ at hq₃).1 v₄))
                  ]
            ]
      ]
]

-- A text that the decoder accepts as valid begins with the encoding of the bytes that it returns,
-- padding included.
pub accepted_is_canonical :
    (p : Bytes) {r : Bytes}
    → All IsByte p
    → decode_base64 p ≡ (r, false)
    → (rest : Bytes) × All IsByte r × (p ≡ encode_base64 r ++ rest)
unfolding decode_base64 encode_base64
accepted_is_canonical p {r} hp v =
    let (s, rest, hs, result, text) = canonical (length p) p [] r 0 0 (omega arith) hp v in
    (rest, rw result hs, rw result text)
