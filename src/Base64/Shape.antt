-- ===== src/Base64/Shape.antt =====
-- The length of an encoded text, and the characters that it is made of.
use fidinventor.Base.{ℕ, ◌+◌, ◌*◌, ◌/◌, ◌<◌, ◌≡◌, [], ◌∷◌, arith, All, length}
use fidinventor.Base.Text.{Bytes, IsByte}
use fidinventor.Base64.{symbol, encode_loop, encode_base64}
use fidinventor.Base64.Bits.{symbol-graphic}
use fidinventor.Base64.RoundTrip.{encode_one, encode_two, encode_three}

length-encode_loop : (s : Bytes) (l : ℕ) → length (encode_loop s 0 l) ≡ (length s + 2) / 3 * 4
unfolding encode_loop
length-encode_loop [] l = omega arith
length-encode_loop (a ∷ []) l = omega arith
length-encode_loop (a ∷ b ∷ []) l = omega arith
length-encode_loop (a ∷ b ∷ c ∷ s) l = omega (arith, length-encode_loop s)

-- The text has exactly the length that the encoder reserves, four characters for each three bytes
-- begun.
pub length-encode_base64 : (s : Bytes) → length (encode_base64 s) ≡ (length s + 2) / 3 * 4
unfolding encode_base64
length-encode_base64 s = length-encode_loop s 0

-- Printable ASCII behind the asterisk, which holds no space and no control character.
abbrev pub IsGraphic : ℕ → Type 0
IsGraphic c = (b'*' < c) × (c < 127)

graphic : (i : ℕ) → i < 64 → IsGraphic (symbol i)
graphic i h = symbol-graphic i h

encode_loop-IsGraphic : (s : Bytes) (l : ℕ) → All IsByte s → All IsGraphic (encode_loop s 0 l)
encode_loop-IsGraphic [] l _ = unfold encode_loop in tt
encode_loop-IsGraphic (a ∷ []) l (ha, _) =
    rw (encode_one a l ha)
      (graphic _ (omega arith), (graphic _ (omega arith), (omega arith, (omega arith, tt))))
encode_loop-IsGraphic (a ∷ b ∷ []) l (ha, (hb, _)) = rw (encode_two a b l ha hb) (
  graphic _ (omega arith),
  (graphic _ (omega arith), (graphic _ (omega arith), (omega arith, tt))),
)
encode_loop-IsGraphic (a ∷ b ∷ c ∷ s) l (ha, (hb, (hc, hs))) =
    rw (encode_three a b c l s ha hb hc) (
      graphic _ (omega arith),
      (
        graphic _ (omega arith),
        (graphic _ (omega arith), (graphic _ (omega arith), encode_loop-IsGraphic s _ hs)),
      ),
    )

-- The encoded text holds printable characters only: no space, no line end, no NUL.
pub encode_base64-IsGraphic : (s : Bytes) → All IsByte s → All IsGraphic (encode_base64 s)
unfolding encode_base64
encode_base64-IsGraphic s h = encode_loop-IsGraphic s 0 h
