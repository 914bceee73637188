-- ===== src/Base64/Reference.antt =====
-- The encoding as RFC 4648 describes it, by groups of three bytes read as one number, and that
-- `EncodeBase64` with its two bits of state computes it.
use fidinventor.Base.{
  ℕ, ◌+◌, ◌-◌, ◌*◌, ◌/◌, ◌%◌, ◌^◌, ◌<◌, ◌≡◌, refl, ap, ◌∙◌, [], ◌∷◌, All, arith, ltb, ◌==◌,
  if◌then◌else◌,
}
use fidinventor.Base.Text.{Bytes, IsByte}
use fidinventor.Base64.{symbol, encode_loop, encode_base64}
use fidinventor.Base64.Bits.{holds_below, eq_below}
use fidinventor.Base64.RoundTrip.{encode_one, encode_two, encode_three}

-- The character of a value below 64: letters, digits, plus and slash.
abbrev pub digit64 : ℕ → ℕ
digit64 i =
    if ltb i 26
    then b'A' + i
    else if ltb i 52
    then b'a' + (i - 26)
    else if ltb i 62
    then b'0' + (i - 52)
    else if i == 62
    then b'+'
    else b'/'

-- The characters of a number of 24 bits, of 18 and of 12.
abbrev pub four_digits : ℕ → Bytes → Bytes
four_digits n rest =
    digit64 (n / 2 ^ 18)
    ∷ digit64 (n / 2 ^ 12 % 64)
    ∷ digit64 (n / 2 ^ 6 % 64)
    ∷ digit64 (n % 64)
    ∷ rest

-- Groups of 24 bits; behind two bytes two bits zero and one pad, behind one byte four and two.
unfoldable pub reference64 : Bytes → Bytes
reference64 [] = []
reference64 (a ∷ []) = digit64 (a * 2 ^ 4 / 2 ^ 6) ∷ digit64 (a * 2 ^ 4 % 64) ∷ b'=' ∷ b'=' ∷ []
reference64 (a ∷ b ∷ []) =
    let n = (a * 2 ^ 8 + b) * 2 ^ 2 in
    digit64 (n / 2 ^ 12) ∷ digit64 (n / 2 ^ 6 % 64) ∷ digit64 (n % 64) ∷ b'=' ∷ []
reference64 (a ∷ b ∷ c ∷ s) = four_digits (a * 2 ^ 16 + b * 2 ^ 8 + c) (reference64 s)

symbol-digit64 : (i : ℕ) → i < 64 → symbol i ≡ digit64 i
unfolding holds_below symbol
symbol-digit64 = eq_below symbol digit64 64 refl

-- A character by another form of its value.
digit-eq : (i j : ℕ) → i < 64 → i ≡ j → symbol i ≡ digit64 j
digit-eq i j h e = symbol-digit64 i h ∙ ap (λ n. digit64 n) e

encode_loop-reference : (s : Bytes) (l : ℕ) → All IsByte s → encode_loop s 0 l ≡ reference64 s
unfolding reference64
encode_loop-reference [] l h = unfold encode_loop in refl
encode_loop-reference (a ∷ []) l (ha, _) =
    let first = digit-eq (a / 4) (a * 2 ^ 4 / 2 ^ 6) (omega arith) (omega arith) in
    let second = digit-eq (a % 4 * 16) (a * 2 ^ 4 % 64) (omega arith) (omega arith) in
    encode_one a l ha ∙ (λ i. first i ∷ second i ∷ b'=' ∷ b'=' ∷ [])
encode_loop-reference (a ∷ b ∷ []) l (ha, (hb, _)) =
    let n = (a * 2 ^ 8 + b) * 2 ^ 2 in
    let first = digit-eq (a / 4) (n / 2 ^ 12) (omega arith) (omega arith) in
    let second = digit-eq (a % 4 * 16 + b / 16) (n / 2 ^ 6 % 64) (omega arith) (omega arith) in
    let third = digit-eq (b % 16 * 4) (n % 64) (omega arith) (omega arith) in
    encode_two a b l ha hb ∙ (λ i. first i ∷ second i ∷ third i ∷ b'=' ∷ [])
encode_loop-reference (a ∷ b ∷ c ∷ s) l (ha, (hb, (hc, hs))) =
    let n = a * 2 ^ 16 + b * 2 ^ 8 + c in
    let first = digit-eq (a / 4) (n / 2 ^ 18) (omega arith) (omega arith) in
    let second = digit-eq (a % 4 * 16 + b / 16) (n / 2 ^ 12 % 64) (omega arith) (omega arith) in
    let third = digit-eq (b % 16 * 4 + c / 64) (n / 2 ^ 6 % 64) (omega arith) (omega arith) in
    let fourth = digit-eq (c % 64) (n % 64) (omega arith) (omega arith) in
    let later = encode_loop-reference s (b % 16 * 4) hs in
    encode_three a b c l s ha hb hc ∙ (λ i. first i ∷ second i ∷ third i ∷ fourth i ∷ later i)

-- For every byte string, the encoder with its state of two bits gives the text of RFC 4648, which
-- reads three bytes as one number of 24 bits.
pub encode_base64-reference : (s : Bytes) → All IsByte s → encode_base64 s ≡ reference64 s
unfolding encode_base64
encode_base64-reference s h = encode_loop-reference s 0 h
