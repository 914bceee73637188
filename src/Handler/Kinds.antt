-- ===== src/Handler/Kinds.antt =====
-- The kinds of transactions, inputs and outputs that `switchTx` gives.
use fidinventor.Base.{
  ℕ, suc, ◌≡◌, ◌≢◌, refl, ap, sym, ◌∙◌, Bool, true, false, ◌&&◌, List, [], ◌∷◌, ◌++◌, ◌==◌,
  if◌then◌else◌, length, arith, All, ℤ, pos,
}
use mathlib.Core.Path.{subst}
use fidinventor.Base.Text.{codes}
use fidinventor.Base.Result.{ok, undefined, >>=-eq-ok, ok-injective}
use fidinventor.Json.Value.{
  Floats, Value, null, str, bool, int, real, arr, obj, Fields, JsonText, get_obj,
}
use fidinventor.Json.Object.{find_value, elements}
use fidinventor.Json.Getters.{get_array_value}
use fidinventor.Chain.Transaction.{Vin, Vout, Transaction}
use fidinventor.Handler.SwitchTx.{
  Storage, first_is_coinbase, kind_of, settle_outputs, settle_kind, vin_entry, switch_vin,
  switch_vins, switch_vout, switch_vouts, filled, started_vin, switch_tx_object, switch_tx_result,
  switch_tx,
}

mark_ne : (b : Bool) → ◌≢◌ {A = ℕ} (if b then b'W' else b'S') b'T'
mark_ne true e = omega arith
mark_ne false e = omega arith

abbrev pub tail {ℓ} : {A : Type ℓ} → List A → List A
tail [] = []
tail (x ∷ xs) = xs

module _ (floats : Floats) where
  open floats use {Float, is_zero}

  -- One coinbase input makes proof of work, anything else proof of stake.
  kind_of_lem :
      (vins : List (Vin Float)) (first : Vout Float) (more : List (Vout Float))
      → kind_of floats vins first more
        ≡ (if (length vins == 1) && first_is_coinbase vins then b'W' else b'S')
  unfolding kind_of
  kind_of_lem [] first more = ground arith
  kind_of_lem (vin ∷ []) first more = ground arith
  kind_of_lem (vin ∷ w ∷ vins) first more = ground arith

  -- The kind that the inputs call for.
  abbrev pub input_kind : List (Vin Float) → ℕ
  input_kind vins = if (length vins == 1) && first_is_coinbase vins then b'W' else b'S'

  input_kind-ne : (vins : List (Vin Float)) → input_kind vins ≢ b'T'
  input_kind-ne vins e = mark_ne ((length vins == 1) && first_is_coinbase vins) e

  settle_outputs-ok :
      (tx : Transaction Float) (vouts : List (Vout Float)) {tx' : Transaction Float}
      → settle_outputs floats tx vouts ≡ ok tx'
      → (tx'.type ≡ input_kind tx.vins)
        × (tx'.vins ≡ tx.vins)
        × (tx'.vouts ≡ tx.vouts)
        × (vouts ≢ [])
  unfolding settle_outputs
  settle_outputs-ok tx [] h = absurd (cc)
  settle_outputs-ok tx (first ∷ more) h = (
    sym (ap (λ (t : Transaction Float). t.type) (ok-injective h)) ∙ kind_of_lem tx.vins first more,
    sym (ap (λ (t : Transaction Float). t.vins) (ok-injective h)),
    sym (ap (λ (t : Transaction Float). t.vouts) (ok-injective h)),
    λ e. cc,
  )

  settle_kind-ok :
      (tx : Transaction Float) {tx' : Transaction Float}
      → settle_kind floats tx ≡ ok tx'
      → (tx'.type ≡ input_kind tx.vins)
        × (tx'.vins ≡ tx.vins)
        × (tx'.vouts ≡ tx.vouts)
        × (tx.vouts ≢ [])
  unfolding settle_kind
  settle_kind-ok tx h = settle_outputs-ok tx tx.vouts h

  settle_kind-none : (tx : Transaction Float) → tx.vouts ≡ [] → settle_kind floats tx ≡ undefined
  unfolding settle_kind settle_outputs
  settle_kind-none tx e = ap (settle_outputs floats tx) e

module _ (floats : Floats) (text : JsonText (Floats.Float floats))
    (storage : Storage (Floats.Float floats)) where
  open floats use {Float, is_zero}

  -- What a successful reading went through: the inputs, the outputs, and the kind.
  pub switch_tx_object-ok :
      (o : Fields Float) (tx : Transaction Float) {tx' : Transaction Float}
      → switch_tx_object floats text storage o tx ≡ ok tx'
      → (vins : List (Vin Float)) × (vouts : List (Vout Float)) × (switch_vins floats text storage 0
            (elements (get_array_value o (codes "vin")))
          ≡ ok vins)
        × (switch_vouts floats text storage 0 (elements (get_array_value o (codes "vout")))
            ≡ ok vouts)
        × (settle_kind floats (filled floats text storage o tx vins vouts) ≡ ok tx')
  unfolding switch_tx_object
  switch_tx_object-ok o tx h =
      let (vins, e₁, h₁) =
        >>=-eq-ok (switch_vins floats text storage 0 (elements (get_array_value o (codes "vin")))) _
          h in
      let (vouts, e₂, h₂) =
        >>=-eq-ok (switch_vouts floats text storage 0 (elements (get_array_value o (codes "vout"))))
          _ h₁ in
      (vins, vouts, e₁, e₂, h₂)

  switch_tx_result-ok :
      (v : Value Float) (tx : Transaction Float) {tx' : Transaction Float}
      → switch_tx_result floats text storage v tx ≡ ok (pos 0, tx')
      → (o : Fields Float) × (v ≡ obj o) × (switch_tx_object floats text storage o tx ≡ ok tx')
  switch_tx_result-ok (obj o) tx h =
      let (t, e, p) = >>=-eq-ok (switch_tx_object floats text storage o tx) _ h in
      (o, refl, e ∙ ap ok (ap (λ (r : ℤ × Transaction Float). r.1) (ok-injective p)))
  switch_tx_result-ok null tx h = absurd (cc)
  switch_tx_result-ok (str s) tx h = absurd (cc)
  switch_tx_result-ok (bool b) tx h = absurd (cc)
  switch_tx_result-ok (int n) tx h = absurd (cc)
  switch_tx_result-ok (real x) tx h = absurd (cc)
  switch_tx_result-ok (arr xs) tx h = absurd (cc)

  -- A transaction that was read is marked 'W' where it has the one input and that is a coinbase, and
  -- 'S' in all other cases: the mark 'T' of an ordinary transaction does not come out. It has an
  -- output at least.
  pub switch_tx-kind :
      (reply : Fields Float) (tx : Transaction Float) {tx' : Transaction Float}
      → switch_tx floats text storage reply tx ≡ ok (pos 0, tx')
      → (tx'.type ≡ input_kind floats tx'.vins) × (tx'.vouts ≢ []) × (tx'.type ≢ b'T')
  unfolding switch_tx
  switch_tx-kind reply tx {tx'} h =
      let (o, e₀, h') = switch_tx_result-ok (find_value reply (codes "result")) tx h in
      let (vins, vouts, e₁, e₂, e₃) = switch_tx_object-ok o tx h' in
      let (kind, same_vins, same_vouts, some_vout) =
        settle_kind-ok floats (filled floats text storage o tx vins vouts) e₃ in
      (
        kind ∙ ap (input_kind floats) (sym same_vins),
        λ e. some_vout (sym same_vouts ∙ e),
        λ e. input_kind-ne floats (tx.vins ++ vins) (sym kind ∙ e),
      )

  vin_entry-kind :
      (i : ℕ) (o : Fields Float) (vin : Vin Float)
      → i ≢ 0
      → (vin_entry floats text storage i o vin).type ≡ b'S'
  unfolding vin_entry
  vin_entry-kind i o vin ne = ground arith

  vin_kind :
      (i : ℕ) (v : Value Float) {vin : Vin Float}
      → i ≢ 0
      → switch_vin floats text storage i v ≡ ok vin
      → vin.type ≡ b'S'
  unfolding switch_vin
  vin_kind i v ne h =
      let (o, e, p) = >>=-eq-ok (get_obj v) _ h in
      ap (λ (w : Vin Float). w.type) (sym (ok-injective p))
      ∙ vin_entry-kind i o (started_vin floats text storage o) ne

  vins_kinds :
      (i : ℕ) (vs : List (Value Float)) {vins : List (Vin Float)}
      → i ≢ 0
      → switch_vins floats text storage i vs ≡ ok vins
      → All (λ w. w.type ≡ b'S') vins
  unfolding switch_vins
  vins_kinds i [] ne h = rw (← ok-injective h) tt
  vins_kinds i (v ∷ vs) ne h =
      let (vin, e, p) = >>=-eq-ok (switch_vin floats text storage i v) _ h in
      let (vins, e₂, p₂) = >>=-eq-ok (switch_vins floats text storage (suc i) vs) _ p in
      rw (← ok-injective p₂) (vin_kind i v ne e, vins_kinds (suc i) vs (omega arith) e₂)

  first_kinds :
      (vs : List (Value Float)) {vins : List (Vin Float)}
      → switch_vins floats text storage 0 vs ≡ ok vins
      → All (λ w. w.type ≡ b'S') (tail vins)
  unfolding switch_vins
  first_kinds [] h = rw (← ok-injective h) tt
  first_kinds (v ∷ vs) h =
      let (vin, e, p) = >>=-eq-ok (switch_vin floats text storage 0 v) _ h in
      let (vins, e₂, p₂) = >>=-eq-ok (switch_vins floats text storage 1 vs) _ p in
      rw (← ok-injective p₂) (vins_kinds 1 vs (omega arith) e₂)

  length-switch_vins :
      (i : ℕ) (vs : List (Value Float)) {vins : List (Vin Float)}
      → switch_vins floats text storage i vs ≡ ok vins
      → length vins ≡ length vs
  unfolding switch_vins
  length-switch_vins i [] h = ap length (sym (ok-injective h))
  length-switch_vins i (v ∷ vs) h =
      let (vin, _, p) = >>=-eq-ok (switch_vin floats text storage i v) _ h in
      let (vins, e, p₂) = >>=-eq-ok (switch_vins floats text storage (suc i) vs) _ p in
      ap length (sym (ok-injective p₂)) ∙ ap suc (length-switch_vins (suc i) vs e)

  length-switch_vouts :
      (j : ℕ) (vs : List (Value Float)) {vouts : List (Vout Float)}
      → switch_vouts floats text storage j vs ≡ ok vouts
      → length vouts ≡ length vs
  unfolding switch_vouts
  length-switch_vouts j [] h = ap length (sym (ok-injective h))
  length-switch_vouts j (v ∷ vs) h =
      let (vout, _, p) = >>=-eq-ok (switch_vout floats text storage j v) _ h in
      let (vouts, e, p₂) = >>=-eq-ok (switch_vouts floats text storage (suc j) vs) _ p in
      ap length (sym (ok-injective p₂)) ∙ ap suc (length-switch_vouts (suc j) vs e)

  -- A fresh transaction that was read has an input for each entry of the list "vin" of the result, and
  -- an output for each of "vout". Of the inputs, all behind the first are marked 'S': a coinbase entry
  -- counts in the first input only.
  pub switch_tx-vins :
      (reply : Fields Float) (tx : Transaction Float) {tx' : Transaction Float}
      → tx.vins ≡ []
      → tx.vouts ≡ []
      → switch_tx floats text storage reply tx ≡ ok (pos 0, tx')
      → ((o : Fields Float) × (find_value reply (codes "result") ≡ obj o)
          × (length tx'.vins ≡ length (elements (get_array_value o (codes "vin"))))
          × (length tx'.vouts ≡ length (elements (get_array_value o (codes "vout")))))
        × All (λ w. w.type ≡ b'S') (tail tx'.vins)
  unfolding switch_tx
  switch_tx-vins reply tx {tx'} fresh none_out h =
      let (o, e₀, h') = switch_tx_result-ok (find_value reply (codes "result")) tx h in
      let (vins, vouts, e₁, e₂, e₃) = switch_tx_object-ok o tx h' in
      let (kind, same_vins, same_vouts, some_vout) =
        settle_kind-ok floats (filled floats text storage o tx vins vouts) e₃ in
      let all_vins = same_vins ∙ ap (λ l. l ++ vins) fresh in
      (
        (
          o,
          e₀,
          ap length all_vins ∙ length-switch_vins 0 (elements (get_array_value o (codes "vin"))) e₁,
          ap length (same_vouts ∙ ap (λ l. l ++ vouts) none_out)
              ∙ length-switch_vouts 0 (elements (get_array_value o (codes "vout"))) e₂,
        ),
        subst (λ l. All (λ (w : Vin Float). w.type ≡ b'S') (tail l)) (sym all_vins)
            (first_kinds (elements (get_array_value o (codes "vin"))) e₁),
      )
