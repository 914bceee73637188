-- ===== src/Base/Dict.antt =====
-- `std::map<std::string, V>` as an association list in the order of its keys.
use mathlib.Core.Path.{◌≡◌, refl}
use mathlib.Core.Bool.{Bool, true, false}
use mathlib.Core.Option.{Option, none, some}
use mathlib.Core.List.{List, [], ◌∷◌}
use native.Mathlib.Omega.{arith}
use fidinventor.Base.Tests.{if◌then◌else◌}
use fidinventor.Base.Text.{Bytes, eq_bytes, eq_bytes_iff, lt_bytes}

abbrev pub Dict {ℓ} : Type ℓ → Type ℓ
Dict V = List (Bytes × V)

module _ {ℓ} {V : Type ℓ} where
  unfoldable pub lookup : Bytes → Dict V → Option V
  lookup k [] = none
  lookup k ((j, v) ∷ m) = if eq_bytes j k then some v else lookup k m

  -- `m[k] = v`
  unfoldable pub assign : Bytes → V → Dict V → Dict V
  assign k v [] = (k, v) ∷ []
  assign k v ((j, w) ∷ m) =
      if eq_bytes j k
      then (k, v) ∷ m
      else (if lt_bytes k j then (k, v) ∷ (j, w) ∷ m else (j, w) ∷ assign k v m)

  pub lookup-assign :
      (k j : Bytes) (v : V) (m : Dict V)
      → lookup j (assign k v m) ≡ (if eq_bytes k j then some v else lookup j m)
  unfolding lookup assign
  lookup-assign k j v [] = refl
  lookup-assign k j v ((i, w) ∷ m) =
      ground (arith, eq_bytes_iff k j, eq_bytes_iff i k, eq_bytes_iff i j, lookup-assign k j v m)

-- `m.count(k)`
abbrev pub count {ℓ} : {V : Type ℓ} → Bytes → Dict V → Bool
count k m = elim (lookup k m) [ none ↦ false | some v ↦ true ]

-- `m.insert(make_pair(k, v))`, which leaves a key that is there alone.
unfoldable pub insert {ℓ} : {V : Type ℓ} → Bytes → V → Dict V → Dict V
insert k v m = if count k m then m else assign k v m

-- `m[k]` on strings where the key may be missing: it is then added with the empty string.
unfoldable pub get_or_add : Bytes → Dict Bytes → Bytes × Dict Bytes
get_or_add k m = elim (lookup k m) [ none ↦ ([], assign k [] m) | some v ↦ (v, m) ]

-- The value that `m[k]` yields.
abbrev pub value_at : Bytes → Dict Bytes → Bytes
value_at k m = elim (lookup k m) [ none ↦ [] | some v ↦ v ]
