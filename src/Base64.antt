-- ===== src/Base64.antt =====
-- `EncodeBase64` and `DecodeBase64` of src/utils.cpp. The loops are functions of their variables
-- `mode` and `left`; the proofs are in the modules below.
mod Bits
pub mod RoundTrip
pub mod Shape
pub mod Canonical
pub mod Reference
use Prim.Native.Nat.{bit_and, bit_or}
use fidinventor.Base.{
  ℕ, zero, suc, ◌+◌, ◌*◌, ◌/◌, ◌%◌, ◌≡◌, refl, Bool, true, false, not, ◌||◌, Option, none, some,
  List, [], ◌∷◌, ◌++◌, ◌==◌, if◌then◌else◌, get_or,
}
use fidinventor.Base.Text.{Bytes, codes}

abbrev pub alphabet : Bytes
alphabet = codes "ABCDEFGHIJKLMNOPQRSTUVWXYZabcdefghijklmnopqrstuvwxyz0123456789+/"

-- `pbase64[i]`
pub symbol : ℕ → ℕ
symbol i = get_or alphabet i 0

-- What follows the loop: the bits left over, and the padding.
encode_finish : ℕ → ℕ → Bytes
unfolding symbol
encode_finish zero left = []
encode_finish (suc zero) left = symbol left ∷ b'=' ∷ b'=' ∷ []
encode_finish mode left = symbol left ∷ b'=' ∷ []

-- `while (pch<pchEnd)`; the third mode leaves `left` as it is.
pub encode_loop : Bytes → ℕ → ℕ → Bytes
unfolding symbol encode_finish
encode_loop [] mode left = encode_finish mode left
encode_loop (enc ∷ rest) zero left = symbol (enc / 4) ∷ encode_loop rest 1 (bit_and enc 3 * 16)
encode_loop (enc ∷ rest) (suc zero) left =
    symbol (bit_or left (enc / 16)) ∷ encode_loop rest 2 (bit_and enc 15 * 4)
encode_loop (enc ∷ rest) mode left =
    symbol (bit_or left (enc / 64)) ∷ symbol (bit_and enc 63) ∷ encode_loop rest 0 left

unfoldable pub encode_base64 : Bytes → Bytes
unfolding encode_loop
encode_base64 s = encode_loop s 0 0

-- `n` entries -1 of the table, which are `none` here, and `n` entries that count up from `first`.
abbrev blanks : ℕ → List (Option ℕ) → List (Option ℕ)
blanks zero rest = rest
blanks (suc n) rest = none ∷ blanks n rest

abbrev counting : ℕ → ℕ → List (Option ℕ) → List (Option ℕ)
counting zero first rest = rest
counting (suc n) first rest = some first ∷ counting n (suc first) rest

abbrev decode64_table : List (Option ℕ)
decode64_table = blanks 43 (
    some 62
    ∷ blanks 3 (
        some 63
        ∷ counting 10 52 (blanks 7 (counting 26 0 (blanks 6 (counting 26 26 (blanks 133 [])))))))

pub sextet : ℕ → Option ℕ
sextet c = get_or decode64_table c none

-- Where the loop stopped: the bytes so far, `mode`, `left`, and the text from `p` on.
pub record Scan : Type 0 where
  pub out : Bytes
  pub mode : ℕ
  pub left : ℕ
  pub rest : Bytes

-- The new `mode` and `left`, and the byte that is pushed, if any.
pub decode_step : ℕ → ℕ → ℕ → Bytes × ℕ × ℕ
decode_step dec zero left = ([], 1, dec)
decode_step dec (suc zero) left = (bit_or (left * 4) (dec / 16) % 256 ∷ [], 2, bit_and dec 15)
decode_step dec (suc (suc zero)) left = (bit_or (left * 16) (dec / 4) % 256 ∷ [], 3, bit_and dec 3)
decode_step dec mode left = (bit_or (left * 64) dec % 256 ∷ [], 0, left)

-- `while (1)`; the NUL behind the text ends the loop, as the table has -1 there.
pub decode_loop : Bytes → Bytes → ℕ → ℕ → Scan
unfolding sextet decode_step
decode_loop [] out mode left = record { out = out; mode = mode; left = left; rest = [] }
decode_loop (c ∷ p) out mode left = elim (sextet c) [
  | none ↦ record { out = out; mode = mode; left = left; rest = c ∷ p }
  | some dec ↦
      decode_loop p (out ++ (decode_step dec mode left).0) (decode_step dec mode left).1
        (decode_step dec mode left).2
]

-- `decode64_table[c] != -1`
abbrev is_sextet : ℕ → Bool
is_sextet c = elim (sextet c) [ none ↦ false | some dec ↦ true ]

-- The value of `*pfInvalid`; behind its end the text reads as NUL.
pub is_invalid : ℕ → ℕ → Bytes → Bool
unfolding sextet
is_invalid zero left p = false
is_invalid (suc zero) left p = true
is_invalid (suc (suc zero)) left p =
    not (left == 0)
    || not (get_or p 0 0 == b'=')
    || not (get_or p 1 0 == b'=')
    || is_sextet (get_or p 2 0)
is_invalid mode left p = not (left == 0) || not (get_or p 0 0 == b'=') || is_sextet (get_or p 1 0)

-- What the decoder returns for a scan: the bytes and the flag.
pub verdict : Scan → Bytes × Bool
unfolding is_invalid
verdict s = (s.out, is_invalid s.mode s.left s.rest)

-- `DecodeBase64(p, &invalid)`
unfoldable pub decode_base64 : Bytes → Bytes × Bool
unfolding decode_loop verdict
decode_base64 p = verdict (decode_loop p [] 0 0)
