-- ===== src/Base/Result.antt =====
-- The outcome of code that may throw. `undefined` stands for a step that C++ gives no meaning to.
use mathlib.Core.Path.{◌≡◌, refl}
use fidinventor.Base.Text.{Bytes}

pub data Result {ℓ} (A : Type ℓ) : Type ℓ where
  ok : A → Result A
  throw : Bytes → Result A
  undefined : Result A

module _ {ℓ κ} {A : Type ℓ} {B : Type κ} where
  infixl 5 ◌>>=◌
  -- A throw, or a step without meaning, ends the chain.
  abbrev pub ◌>>=◌ : Result A → (A → Result B) → Result B
  ok value >>= next = next value
  throw text >>= next = throw text
  undefined >>= next = undefined

  -- The same, by name, for modules that have another chain of their own.
  abbrev pub bind_result : Result A → (A → Result B) → Result B
  bind_result first next = first >>= next

  -- What a successful chain is made of.
  pub >>=-eq-ok :
      (first : Result A) (next : A → Result B) {last : B}
      → (first >>= next) ≡ ok last
      → (value : A) × (first ≡ ok value) × (next value ≡ ok last)
  >>=-eq-ok (ok value) next h = (value, refl, h)
  >>=-eq-ok (throw text) next h = cc
  >>=-eq-ok undefined next h = cc

pub ok-injective {ℓ} : {A : Type ℓ} {a b : A} → ok a ≡ ok b → a ≡ b
ok-injective h = cc
