-- ===== src/Base/Boost.antt =====
-- The calls of `boost::split`, `boost::trim` and `boost::to_lower`, as an interface with their
-- documented behaviour. The program does not implement them.
use Prim.Native.Nat.{ℕ, ◌+◌}
use mathlib.Core.Path.{◌≡◌}
use mathlib.Core.Logic.{◌≢◌}
use mathlib.Core.Bool.{true, false, ◌&&◌}
use mathlib.Core.List.{List, [], ◌∷◌, ◌++◌}
use fidinventor.Base.Tests.{leb, if◌then◌else◌}
use fidinventor.Base.Lists.{All}
use fidinventor.Base.Text.{Bytes, is_space}

abbrev pub Lacks : ℕ → Bytes → Type 0
Lacks c = All (λ b. b ≢ c)

-- The first byte is no white space.
abbrev pub StartsBare : Bytes → Type 0
StartsBare [] = Unit
StartsBare (c ∷ s) = is_space c ≡ false

-- The last byte is no white space.
abbrev pub EndsBare : Bytes → Type 0
EndsBare [] = Unit
EndsBare (c ∷ []) = is_space c ≡ false
EndsBare (c ∷ d ∷ s) = EndsBare (d ∷ s)

-- `tolower` in the "C" locale.
abbrev pub lower : ℕ → ℕ
lower c = if leb b'A' c && leb c b'Z' then c + 32 else c

pub record StringAlgo : Type 0 where
  -- `split(out, s, is_any_of(" "))`
  pub split : Bytes → List Bytes
  -- `trim(s)`
  pub trim : Bytes → Bytes
  -- `to_lower(s)`
  pub to_lower : Bytes → Bytes
  -- A text with no space is one part, and the first space ends the first part.
  pub split-Lacks : (s : Bytes) → Lacks b' ' s → split s ≡ s ∷ []
  pub split-append : (s t : Bytes) → Lacks b' ' s → split (s ++ b' ' ∷ t) ≡ s ∷ split t
  -- White space goes from both ends, and a text with none there stays.
  pub trim-bare : (s : Bytes) → StartsBare s → EndsBare s → trim s ≡ s
  pub trim-front : (c : ℕ) (s : Bytes) → is_space c ≡ true → trim (c ∷ s) ≡ trim s
  pub trim-back : (s : Bytes) (c : ℕ) → is_space c ≡ true → trim (s ++ c ∷ []) ≡ trim s
  -- Each letter by itself.
  pub to_lower-nil : to_lower [] ≡ []
  pub to_lower-cons : (c : ℕ) (s : Bytes) → to_lower (c ∷ s) ≡ lower c ∷ to_lower s
