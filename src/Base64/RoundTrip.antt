-- ===== src/Base64/RoundTrip.antt =====
-- `DecodeBase64` undoes `EncodeBase64`.
use fidinventor.Base.{
  ℕ, ◌+◌, ◌*◌, ◌/◌, ◌%◌, ◌<◌, ◌≡◌, refl, Bool, false, some, [], ◌∷◌, ◌++◌, append_assoc, append-nil,
  arith, All,
}
use fidinventor.Base.Text.{Bytes, IsByte}
use fidinventor.Base64.{
  symbol, encode_loop, encode_base64, sextet, decode_step, decode_loop, verdict, decode_base64,
}
use native.Mathlib.Nat.{mod-eq_of_lt}
use fidinventor.Base64.Bits.{and-3, and-15, and-63, join-4, join-16, join-64, sextet-symbol}

-- A character of the alphabet makes one round of the decoder.
pub decode_loop-cons :
    (c i mode left : ℕ) (p out : Bytes)
    → sextet c ≡ some i
    → decode_loop (c ∷ p) out mode left
      ≡ decode_loop p
          (out ++ (decode_step i mode left).0)
          (decode_step i mode left).1
          (decode_step i mode left).2
unfolding decode_loop
decode_loop-cons c i mode left p out h = rw h

pub take_symbol :
    (i mode left : ℕ) (p out : Bytes)
    → i < 64
    → decode_loop (symbol i ∷ p) out mode left
      ≡ decode_loop p
          (out ++ (decode_step i mode left).0)
          (decode_step i mode left).1
          (decode_step i mode left).2
take_symbol i mode left p out h = decode_loop-cons (symbol i) i mode left p out (sextet-symbol i h)

module _ (i j : ℕ) (p out : Bytes) (left : ℕ) (hi : i < 64) (hj : j < 64) where
  -- Two symbols give a byte and four bits.
  pub two_symbols :
      decode_loop (symbol i ∷ symbol j ∷ p) out 0 left
      ≡ decode_loop p (out ++ (i * 4 + j / 16) ∷ []) 2 (j % 16)
  unfolding decode_step
  two_symbols = rw (
    take_symbol i 0 left (symbol j ∷ p) out hi,
    append-nil,
    take_symbol j 1 i p out hj,
    join-4 i (j / 16) hi (omega arith),
    and-15 j (omega arith),
    mod-eq_of_lt {n = i * 4 + j / 16} {m = 256} (omega arith),
  )

module _ (i j k : ℕ) (p out : Bytes) (left : ℕ) (hi : i < 64) (hj : j < 64) (hk : k < 64) where
  -- Three symbols give two bytes and two bits.
  pub three_symbols :
      decode_loop (symbol i ∷ symbol j ∷ symbol k ∷ p) out 0 left
      ≡ decode_loop p (out ++ (i * 4 + j / 16) ∷ (j % 16 * 16 + k / 4) ∷ []) 3 (k % 4)
  unfolding decode_step
  three_symbols = rw (
    two_symbols i j (symbol k ∷ p) out left hi hj,
    take_symbol k 2 (j % 16) p (out ++ (i * 4 + j / 16) ∷ []) hk,
    join-16 (j % 16) (k / 4) (omega arith) (omega arith),
    and-3 k (omega arith),
    mod-eq_of_lt {n = j % 16 * 16 + k / 4} {m = 256} (omega arith),
    append_assoc,
  )

module _ (i j k l : ℕ) (p out : Bytes) (left : ℕ) (hi : i < 64) (hj : j < 64) (hk : k < 64)
    (hl : l < 64) where
  -- Four symbols give three bytes.
  pub four_symbols :
      decode_loop (symbol i ∷ symbol j ∷ symbol k ∷ symbol l ∷ p) out 0 left
      ≡ decode_loop p
          (out ++ (i * 4 + j / 16) ∷ (j % 16 * 16 + k / 4) ∷ (k % 4 * 64 + l) ∷ [])
          0
          (k % 4)
  unfolding decode_step
  four_symbols = rw (
    three_symbols i j k (symbol l ∷ p) out left hi hj hk,
    take_symbol l 3 (k % 4) p (out ++ (i * 4 + j / 16) ∷ (j % 16 * 16 + k / 4) ∷ []) hl,
    join-64 (k % 4) l (omega arith) hl,
    mod-eq_of_lt {n = k % 4 * 64 + l} {m = 256} (omega arith),
    append_assoc,
  )

module _ (a b c left : ℕ) (rest : Bytes) (ha : IsByte a) (hb : IsByte b) (hc : IsByte c) where
  -- The symbols of a group of three bytes.
  pub encode_three :
      encode_loop (a ∷ b ∷ c ∷ rest) 0 left
      ≡ symbol (a / 4)
        ∷ symbol (a % 4 * 16 + b / 16)
        ∷ symbol (b % 16 * 4 + c / 64)
        ∷ symbol (c % 64)
        ∷ encode_loop rest 0 (b % 16 * 4)
  unfolding encode_loop
  encode_three = rw (
    and-3 a ha,
    and-15 b hb,
    and-63 c hc,
    join-16 (a % 4) (b / 16) (omega arith) (omega arith),
    join-4 (b % 16) (c / 64) (omega arith) (omega arith),
  )

module _ (a b left : ℕ) (ha : IsByte a) (hb : IsByte b) where
  pub encode_two :
      encode_loop (a ∷ b ∷ []) 0 left
      ≡ symbol (a / 4) ∷ symbol (a % 4 * 16 + b / 16) ∷ symbol (b % 16 * 4) ∷ b'=' ∷ []
  unfolding encode_loop
  encode_two = rw (and-3 a ha, and-15 b hb, join-16 (a % 4) (b / 16) (omega arith) (omega arith))

module _ (a left : ℕ) (ha : IsByte a) where
  pub encode_one :
      encode_loop (a ∷ []) 0 left ≡ symbol (a / 4) ∷ symbol (a % 4 * 16) ∷ b'=' ∷ b'=' ∷ []
  unfolding encode_loop
  encode_one = rw (and-3 a ha)

-- The decoder stops at the padding; what it accepts there.
stop_at_pad :
    (p out : Bytes) (mode left : ℕ)
    → decode_loop (b'=' ∷ p) out mode left
      ≡ record { out = out; mode = mode; left = left; rest = b'=' ∷ p }
unfolding decode_loop
stop_at_pad p out mode left = refl

pad_two :
    (out : Bytes) (x a r : ℕ)
    → x ≡ a
    → r ≡ 0
    → verdict (record { out = out ++ x ∷ []; mode = 2; left = r; rest = b'=' ∷ b'=' ∷ [] })
      ≡ (out ++ a ∷ [], false)
unfolding verdict
pad_two out x a r p q = rw (p, q)

pad_one :
    (out : Bytes) (x a y b r : ℕ)
    → x ≡ a
    → y ≡ b
    → r ≡ 0
    → verdict (record { out = out ++ x ∷ y ∷ []; mode = 3; left = r; rest = b'=' ∷ [] })
      ≡ (out ++ a ∷ b ∷ [], false)
unfolding verdict
pad_one out x a y b r p q z = rw (p, q, z)

three_bytes :
    (out s : Bytes) {x y z a b c : ℕ}
    → x ≡ a
    → y ≡ b
    → z ≡ c
    → ◌≡◌ {A = Bytes × Bool} (out ++ x ∷ y ∷ z ∷ s, false) (out ++ a ∷ b ∷ c ∷ s, false)
three_bytes out s p q r = rw (p, q, r)

decode-encode_loop :
    (s out : Bytes) (l l' : ℕ)
    → All IsByte s
    → verdict (decode_loop (encode_loop s 0 l) out 0 l') ≡ (out ++ s, false)
decode-encode_loop [] out l l' _ = unfold decode_loop encode_loop verdict in rw append-nil
decode-encode_loop (a ∷ []) out l l' (ha, _) =
    rw
      (
        encode_one a l ha,
        two_symbols (a / 4) (a % 4 * 16) _ out l' (omega arith) (omega arith),
        stop_at_pad,
      )
      (pad_two out _ _ _ (omega arith) (omega arith))
decode-encode_loop (a ∷ b ∷ []) out l l' (ha, (hb, _)) =
    rw
      (
        encode_two a b l ha hb,
        three_symbols (a / 4) (a % 4 * 16 + b / 16) (b % 16 * 4) _ out l' (omega arith)
            (omega arith) (omega arith),
        stop_at_pad,
      )
      (pad_one out _ _ _ _ _ (omega arith) (omega arith) (omega arith))
decode-encode_loop (a ∷ b ∷ c ∷ s) out l l' (ha, (hb, (hc, hs))) =
    rw
      (
        encode_three a b c l s ha hb hc,
        four_symbols (a / 4) (a % 4 * 16 + b / 16) (b % 16 * 4 + c / 64) (c % 64)
            (encode_loop s 0 (b % 16 * 4)) out l' (omega arith) (omega arith) (omega arith)
            (omega arith),
        decode-encode_loop s _ (b % 16 * 4) _ hs,
        append_assoc,
      )
      (three_bytes out s (omega arith) (omega arith) (omega arith))

-- Every byte string is read back from its Base64 text, and the text is accepted as valid.
pub decode-encode : (s : Bytes) → All IsByte s → decode_base64 (encode_base64 s) ≡ (s, false)
unfolding decode_base64 encode_base64
decode-encode s h = decode-encode_loop s [] 0 0 h
