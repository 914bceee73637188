-- ===== src/Base/Decimal.antt =====
-- Decimal printing of numbers (`ostream << n`), and that the C library's parsing undoes it.
use Prim.Native.Nat.{ℕ, zero, suc, ◌+◌, ◌/◌, ◌%◌, ◌^◌, ◌≤◌, ◌<◌}
use mathlib.Core.Path.{◌≡◌, refl, ◌∙◌, ap, sym}
use mathlib.Core.Logic.{inl, inr}
use native.Mathlib.Nat.{mod-eq_of_lt}
use mathlib.Core.Bool.{true, false}
use mathlib.Core.List.{[], ◌∷◌, ◌++◌, append-nil}
use native.Mathlib.Omega.{arith}
use fidinventor.Base.Tests.{◌==◌, if◌then◌else◌, Bool-cases}
use fidinventor.Base.Lists.{All}
use fidinventor.Base.Int.{ℤ, pos, negsuc}
use fidinventor.Base.Text.{
  Bytes, is_digit, is_space, skip_space, scan_digits, scan_signed, clamp64, strtoll, c_atoi,
}

-- The digits of `n` in front of `out`; each round takes the last digit.
print_loop : ℕ → ℕ → Bytes → Bytes
print_loop zero n out = (b'0' + n % 10) ∷ out
print_loop (suc fuel) n out =
    let more = print_loop fuel (n / 10) ((b'0' + n % 10) ∷ out) in
    if n / 10 == 0 then (b'0' + n % 10) ∷ out else more

-- `n` rounds are more than enough.
unfoldable pub decimal : ℕ → Bytes
unfolding print_loop
decimal n = print_loop n n []

unfoldable pub decimal_ℤ : ℤ → Bytes
unfolding decimal
decimal_ℤ (pos n) = decimal n
decimal_ℤ (negsuc n) = b'-' ∷ decimal (suc n)

abbrev pub IsDigit : ℕ → Type 0
IsDigit c = (b'0' ≤ c) × (c ≤ b'9')

-- A text that begins with a digit and is made of digits.
pub data Number : Bytes → Type 0 where
  digits : {s : Bytes} (c : ℕ) (t : Bytes) → s ≡ c ∷ t → IsDigit c → All IsDigit t → Number s

print_loop-Number : (fuel n : ℕ) (out : Bytes) → All IsDigit out → Number (print_loop fuel n out)
unfolding print_loop
print_loop-Number zero n out h = digits (b'0' + n % 10) out refl (omega arith) h
print_loop-Number (suc fuel) n out h = elim (Bool-cases (n / 10 == 0)) [
  | inl e ↦ rw e (digits (b'0' + n % 10) out refl (omega arith) h)
  | inr e ↦ rw e (print_loop-Number fuel (n / 10) ((b'0' + n % 10) ∷ out) (omega arith, h))
]

digit-is_space : (c : ℕ) → IsDigit c → is_space c ≡ false
digit-is_space c h = ground arith

digit-minus : (c : ℕ) → IsDigit c → (c == b'-') ≡ false
digit-minus c h = ground arith

digit-plus : (c : ℕ) → IsDigit c → (c == b'+') ≡ false
digit-plus c h = ground arith

pub decimal-Number : (n : ℕ) → Number (decimal n)
unfolding decimal
decimal-Number n = print_loop-Number n n [] tt

-- Reading the last digit of `n` behind the digits before it gives `n`.
scan_last :
    (n m : ℕ) (s : Bytes) → m ≡ n / 10 → scan_digits ((b'0' + n % 10) ∷ s) m ≡ scan_digits s n
unfolding scan_digits
scan_last n m s e = ground arith

scan-print_loop :
    (fuel n : ℕ) (out rest : Bytes)
    → n ≤ fuel
    → scan_digits (print_loop fuel n out ++ rest) 0 ≡ scan_digits (out ++ rest) n
unfolding print_loop
scan-print_loop zero n out rest h = scan_last n 0 (out ++ rest) (omega arith)
scan-print_loop (suc fuel) n out rest h = elim (Bool-cases (n / 10 == 0)) [
  | inl e ↦ rw e (scan_last n 0 (out ++ rest) (ground arith))
  | inr e ↦ rw e (
      scan-print_loop fuel (n / 10) ((b'0' + n % 10) ∷ out) rest (omega arith)
      ∙ scan_last n (n / 10) (out ++ rest) refl)
]

-- The first byte does not go on with a number.
abbrev pub EndsNumber : Bytes → Type 0
EndsNumber [] = Unit
EndsNumber (c ∷ s) = is_digit c ≡ false

scan-EndsNumber : (s : Bytes) (n : ℕ) → EndsNumber s → scan_digits s n ≡ n
unfolding scan_digits
scan-EndsNumber [] n h = refl
scan-EndsNumber (c ∷ s) n h = rw h

pub scan-decimal : (n : ℕ) (rest : Bytes) → EndsNumber rest → scan_digits (decimal n ++ rest) 0 ≡ n
unfolding decimal
scan-decimal n rest h = scan-print_loop n n [] rest (omega arith) ∙ scan-EndsNumber rest n h

digit_front :
    (c : ℕ) (s : Bytes)
    → IsDigit c
    → scan_signed (skip_space (c ∷ s)) ≡ clamp64 false (scan_digits (c ∷ s) 0)
unfolding skip_space
digit_front c s h = rw (digit-is_space c h, digit-minus c h, digit-plus c h)

Number-front :
    (s rest : Bytes) → Number s → strtoll (s ++ rest) ≡ clamp64 false (scan_digits (s ++ rest) 0)
unfolding strtoll
Number-front s rest (digits c t e h ht) = rw e (digit_front c (t ++ rest) h)

-- A printed number is read back, whatever follows that is no digit.
pub strtoll-decimal :
    (n : ℕ) (rest : Bytes) → n < 2 ^ 63 → EndsNumber rest → strtoll (decimal n ++ rest) ≡ pos n
strtoll-decimal n rest fits h =
    rw (Number-front (decimal n) rest (decimal-Number n), scan-decimal n rest h) (ground arith)

pub c_atoi-decimal :
    (n : ℕ) (rest : Bytes) → n < 2 ^ 31 → EndsNumber rest → c_atoi (decimal n ++ rest) ≡ pos n
unfolding c_atoi
c_atoi-decimal n rest fits h =
    rw (strtoll-decimal n rest (omega arith) h)
      (ground (arith, mod-eq_of_lt {n = n} {m = 2 ^ 32} (omega arith)))

abbrev pub IsInt64 : ℤ → Type 0
IsInt64 (pos n) = n < 2 ^ 63
IsInt64 (negsuc n) = n < 2 ^ 63

minus_front : (s : Bytes) → strtoll (b'-' ∷ s) ≡ clamp64 true (scan_digits s 0)
unfolding strtoll
minus_front s = refl

clamp_negative : (n : ℕ) → n < 2 ^ 63 → clamp64 true (suc n) ≡ negsuc n
clamp_negative n h = ground arith

-- Every 64-bit integer is read back from its decimal text.
pub strtoll-decimal_ℤ : (n : ℤ) → IsInt64 n → strtoll (decimal_ℤ n) ≡ n
unfolding decimal_ℤ
strtoll-decimal_ℤ (pos n) h = ap strtoll (sym (append-nil (decimal n))) ∙ strtoll-decimal n [] h tt
strtoll-decimal_ℤ (negsuc n) h =
    minus_front (decimal (suc n))
    ∙ (ap (λ s. clamp64 true (scan_digits s 0)) (sym (append-nil (decimal (suc n))))
        ∙ (ap (clamp64 true) (scan-decimal (suc n) [] tt) ∙ clamp_negative n h))
