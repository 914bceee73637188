-- ===== src/Base/Text.antt =====
-- `std::string` as the list of its bytes: comparison, search, and the C library's number parsing.
use Prim.Native.Nat.{ℕ, ◌+◌, ◌-◌, ◌*◌, ◌^◌, ◌<◌}
use Prim.Native.Char.{code}
use Prim.Native.String.{String}
use mathlib.Core.Path.{◌≡◌}
use mathlib.Core.Logic.{◌↔◌}
use mathlib.Core.Bool.{Bool, true, false, ◌&&◌, ◌||◌}
use mathlib.Core.List.{List, [], ◌∷◌}
use native.Mathlib.Omega.{arith}
use fidinventor.Base.Tests.{ltb, leb, ◌==◌, if◌then◌else◌, ==_iff}
use fidinventor.Base.Int.{ℤ, pos, negsuc, to_int32}

abbrev pub Bytes : Type 0
Bytes = List ℕ

abbrev pub IsByte : ℕ → Type 0
IsByte b = b < 256

-- The bytes of an ASCII literal.
abbrev pub codes : String → Bytes
codes String.[] = []
codes (String.◌∷◌ c s) = code c ∷ codes s

-- `a == b` on strings.
unfoldable pub eq_bytes : Bytes → Bytes → Bool
eq_bytes [] [] = true
eq_bytes [] (b ∷ t) = false
eq_bytes (a ∷ s) [] = false
eq_bytes (a ∷ s) (b ∷ t) = (a == b) && eq_bytes s t

pub eq_bytes_iff : (s t : Bytes) → (eq_bytes s t ≡ true) ↔ (s ≡ t)
unfolding eq_bytes
eq_bytes_iff [] [] = ground arith
eq_bytes_iff [] (b ∷ t) = ground arith
eq_bytes_iff (a ∷ s) [] = ground arith
eq_bytes_iff (a ∷ s) (b ∷ t) = ground (arith, eq_bytes_iff s t, ==_iff a b)

-- `a < b` on strings, the order of the keys of a `std::map`.
unfoldable pub lt_bytes : Bytes → Bytes → Bool
lt_bytes s [] = false
lt_bytes [] (b ∷ t) = true
lt_bytes (a ∷ s) (b ∷ t) = ltb a b || ((a == b) && lt_bytes s t)

abbrev pub is_empty : Bytes → Bool
is_empty [] = true
is_empty (c ∷ s) = false

-- `isspace` in the "C" locale.
abbrev pub is_space : ℕ → Bool
is_space c = (c == 32) || (leb 9 c && leb c 13)

abbrev pub is_digit : ℕ → Bool
is_digit c = leb b'0' c && leb c b'9'

unfoldable pub skip_space : Bytes → Bytes
skip_space [] = []
skip_space (c ∷ s) = if is_space c then skip_space s else c ∷ s

-- The value of the digits at the front, behind `n`.
unfoldable pub scan_digits : Bytes → ℕ → ℕ
scan_digits [] n = n
scan_digits (c ∷ s) n =
    let rest = scan_digits s (n * 10 + (c - b'0')) in if is_digit c then rest else n

-- A magnitude with its sign, held to the range of `long long`.
abbrev pub clamp64 : Bool → ℕ → ℤ
clamp64 negative n =
    if negative
    then (if leb (2 ^ 63) n
        then negsuc (2 ^ 63 - 1)
        else (if n == 0 then pos 0 else negsuc (n - 1)))
    else (if leb (2 ^ 63) n then pos (2 ^ 63 - 1) else pos n)

abbrev pub scan_signed : Bytes → ℤ
scan_signed [] = pos 0
scan_signed (c ∷ s) =
    if c == b'-'
    then clamp64 true (scan_digits s 0)
    else if c == b'+'
    then clamp64 false (scan_digits s 0)
    else clamp64 false (scan_digits (c ∷ s) 0)

-- `strtoll(s, NULL, 10)`: white space, a sign, digits; out of range the nearest bound.
unfoldable pub strtoll : Bytes → ℤ
unfolding skip_space scan_digits
strtoll s = scan_signed (skip_space s)

-- `atoi`, which in the C library is `(int) strtol(s, NULL, 10)` with a 64-bit `long`.
unfoldable pub c_atoi : Bytes → ℤ
unfolding strtoll
c_atoi s = to_int32 (strtoll s)
