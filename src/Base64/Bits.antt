-- ===== src/Base64/Bits.antt =====
-- Masks, shifts and tables of the Base64 code as arithmetic, checked over their finite ranges.
use Prim.Native.Nat.{bit_and, bit_or}
use fidinventor.Base.{
  ℕ, zero, suc, ◌+◌, ◌*◌, ◌/◌, ◌%◌, ◌<◌, ◌≡◌, refl, Bool, true, false, ◌&&◌, Option, none, some,
  ◌==◌, ==_iff, ltb, ltb→lt, if◌then◌else◌, arith,
}
use mathlib.Core.Option.{some-injective}
use fidinventor.Base64.{symbol, sextet}

-- A test passes for every number below `n`.
unfoldable pub holds_below : (ℕ → Bool) → ℕ → Bool
holds_below test zero = true
holds_below test (suc n) = if test n then holds_below test n else false

holds_below-elim :
    (test : ℕ → Bool) (n : ℕ) → holds_below test n ≡ true → (i : ℕ) → i < n → test i ≡ true
unfolding holds_below
holds_below-elim test zero e i h = absurd (omega arith)
holds_below-elim test (suc n) e i h = ground (arith, holds_below-elim test n (ground arith) i)

pub eq_below :
    (f g : ℕ → ℕ) (n : ℕ) → holds_below (λ i. f i == g i) n ≡ true → (i : ℕ) → i < n → f i ≡ g i
eq_below f g n e i h = (==_iff (f i) (g i)).0 (holds_below-elim (λ j. f j == g j) n e i h)

pub and-3 : (b : ℕ) → b < 256 → bit_and b 3 ≡ b % 4
unfolding holds_below
and-3 = eq_below (λ b. bit_and b 3) (λ b. b % 4) 256 refl

pub and-15 : (b : ℕ) → b < 256 → bit_and b 15 ≡ b % 16
unfolding holds_below
and-15 = eq_below (λ b. bit_and b 15) (λ b. b % 16) 256 refl

pub and-63 : (b : ℕ) → b < 256 → bit_and b 63 ≡ b % 64
unfolding holds_below
and-63 = eq_below (λ b. bit_and b 63) (λ b. b % 64) 256 refl

split-4 : (b : ℕ) → b < 256 → bit_or (b / 4 * 4) (b % 4) ≡ b
unfolding holds_below
split-4 = eq_below (λ b. bit_or (b / 4 * 4) (b % 4)) (λ b. b) 256 refl

split-16 : (b : ℕ) → b < 256 → bit_or (b / 16 * 16) (b % 16) ≡ b
unfolding holds_below
split-16 = eq_below (λ b. bit_or (b / 16 * 16) (b % 16)) (λ b. b) 256 refl

split-64 : (b : ℕ) → b < 256 → bit_or (b / 64 * 64) (b % 64) ≡ b
unfolding holds_below
split-64 = eq_below (λ b. bit_or (b / 64 * 64) (b % 64)) (λ b. b) 256 refl

-- Two fields beside each other are joined by `|`.
joined :
    (k hi lo : ℕ) (e : bit_or ((hi * k + lo) / k * k) ((hi * k + lo) % k) ≡ hi * k + lo)
    → (hi * k + lo) / k ≡ hi
    → (hi * k + lo) % k ≡ lo
    → bit_or (hi * k) lo ≡ hi * k + lo
joined k hi lo e p q = rw (p, q) at e

pub join-4 : (hi lo : ℕ) → hi < 64 → lo < 4 → bit_or (hi * 4) lo ≡ hi * 4 + lo
join-4 hi lo h l = joined 4 hi lo (split-4 _ (omega arith)) (omega arith) (omega arith)

pub join-16 : (hi lo : ℕ) → hi < 16 → lo < 16 → bit_or (hi * 16) lo ≡ hi * 16 + lo
join-16 hi lo h l = joined 16 hi lo (split-16 _ (omega arith)) (omega arith) (omega arith)

pub join-64 : (hi lo : ℕ) → hi < 4 → lo < 64 → bit_or (hi * 64) lo ≡ hi * 64 + lo
join-64 hi lo h l = joined 64 hi lo (split-64 _ (omega arith)) (omega arith) (omega arith)

-- The value of a table entry, with 64 for -1.
entry : Option ℕ → ℕ
entry none = 64
entry (some d) = d

entry-inv : (o : Option ℕ) (i : ℕ) → i < 64 → entry o ≡ i → o ≡ some i
unfolding entry
entry-inv o i h e = ground arith

-- The decoding table inverts the alphabet.
pub sextet-symbol : (i : ℕ) → i < 64 → sextet (symbol i) ≡ some i
unfolding holds_below entry sextet symbol
sextet-symbol i h =
    entry-inv (sextet (symbol i)) i h
      (eq_below (λ j. entry (sextet (symbol j))) (λ j. j) 64 refl i h)

-- Whether an entry of the table is -1 or names the character itself in the alphabet.
names_itself : Option ℕ → ℕ → Bool
names_itself none c = true
names_itself (some d) c = ltb d 64 && (symbol d == c)

names_itself-inv :
    (o : Option ℕ) (c d : ℕ) → names_itself o c ≡ true → o ≡ some d → (d < 64) × (symbol d ≡ c)
unfolding names_itself
names_itself-inv none c d e h = cc
names_itself-inv (some x) c d e h = ground (arith, some-injective h)

-- Every character that the decoder takes stands in the alphabet, at the value that it gives.
pub symbol-sextet : (c d : ℕ) → c < 256 → sextet c ≡ some d → (d < 64) × (symbol d ≡ c)
unfolding holds_below names_itself sextet symbol
symbol-sextet c d h e =
    names_itself-inv (sextet c) c d (holds_below-elim (λ j. names_itself (sextet j) j) 256 refl c h)
      e

pub symbol-graphic : (i : ℕ) → i < 64 → (b'*' < symbol i) × (symbol i < 127)
unfolding holds_below symbol
symbol-graphic i h =
    let low = holds_below-elim (λ j. ltb b'*' (symbol j)) 64 refl i h in
    let high = holds_below-elim (λ j. ltb (symbol j) 127) 64 refl i h in
    (ltb→lt b'*' (symbol i) low, ltb→lt (symbol i) 127 high)
