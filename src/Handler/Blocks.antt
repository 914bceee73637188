-- ===== src/Handler/Blocks.antt =====
-- What `switchBk` makes of a reply.
use fidinventor.Base.{ℕ, ◌≡◌, ◌≢◌, refl, ap, sym, ◌∙◌, List, [], ◌∷◌, ℤ, to_uint64}
use fidinventor.Base.Text.{Bytes, codes}
use fidinventor.Base.Result.{Result, ok, >>=-eq-ok, ok-injective}
use fidinventor.Json.Value.{
  Items, Value, null, str, bool, int, real, arr, obj, Fields, JsonText, get_str, get_int, get_int64,
  get_uint64, mismatch,
}
use fidinventor.Json.Object.{find_value, elements}
use fidinventor.Chain.Block.{Block}
use fidinventor.Handler.SwitchBlock.{
  str_or, switch_numbers, switch_strings, switch_proofhash, all_strings, switch_ids,
  switch_block_object, switch_block_result, switch_block,
}

module _ {F : Type 0} where
  get_uint64-ok :
      (v : Value F) {n : ℕ} → get_uint64 v ≡ ok n → (m : ℤ) × (v ≡ int m) × (n ≡ to_uint64 m)
  unfolding get_uint64 mismatch
  get_uint64-ok (int m) h = (m, refl, sym (ok-injective h))
  get_uint64-ok null h = absurd (cc)
  get_uint64-ok (str s) h = absurd (cc)
  get_uint64-ok (bool b) h = absurd (cc)
  get_uint64-ok (real x) h = absurd (cc)
  get_uint64-ok (arr xs) h = absurd (cc)
  get_uint64-ok (obj o) h = absurd (cc)

  get_str-ok : (v : Value F) {s : Bytes} → get_str v ≡ ok s → v ≡ str s
  unfolding get_str mismatch
  get_str-ok (str s) h = ap str (ok-injective h)
  get_str-ok null h = absurd (cc)
  get_str-ok (bool b) h = absurd (cc)
  get_str-ok (int n) h = absurd (cc)
  get_str-ok (real x) h = absurd (cc)
  get_str-ok (arr xs) h = absurd (cc)
  get_str-ok (obj o) h = absurd (cc)

  numbers-ok :
      (o : Fields F) (bk : Block F) {bk' : Block F}
      → switch_numbers o bk ≡ ok bk'
      → (bk'.hash ≡ bk.hash)
        × ((m : ℤ) × (find_value o (codes "height") ≡ int m) × (bk'.height ≡ to_uint64 m))
        × (bk'.vtx ≡ bk.vtx)
  unfolding switch_numbers
  numbers-ok o bk h =
      let (confirmations, e₁, h₁) =
        >>=-eq-ok (get_uint64 (find_value o (codes "confirmations"))) _ h in
      let (size, e₂, h₂) = >>=-eq-ok (get_int (find_value o (codes "size"))) _ h₁ in
      let (height, e₃, h₃) = >>=-eq-ok (get_uint64 (find_value o (codes "height"))) _ h₂ in
      let (version, e₄, h₄) = >>=-eq-ok (get_int (find_value o (codes "version"))) _ h₃ in
      let (time, e₅, h₅) = >>=-eq-ok (get_int64 (find_value o (codes "time"))) _ h₄ in
      let (nonce, e₆, h₆) = >>=-eq-ok (get_int (find_value o (codes "nonce"))) _ h₅ in
      let (entropybit, e₇, h₇) = >>=-eq-ok (get_int (find_value o (codes "entropybit"))) _ h₆ in
      let (m, found, same) = get_uint64-ok (find_value o (codes "height")) e₃ in
      (
        sym (ap (λ (b : Block F). b.hash) (ok-injective h₇)),
        (m, found, sym (ap (λ (b : Block F). b.height) (ok-injective h₇)) ∙ same),
        sym (ap (λ (b : Block F). b.vtx) (ok-injective h₇)),
      )

  -- Where `flags` is a text, `proofhash` is one too.
  proofhash-ok :
      (flags : Value F) (proofhash : Value F) (old : Bytes) (f : Bytes) {s : Bytes}
      → flags ≡ str f
      → switch_proofhash flags proofhash old ≡ ok s
      → proofhash ≡ str s
  unfolding switch_proofhash
  proofhash-ok flags proofhash old f e h =
      get_str-ok proofhash (ap (λ v. switch_proofhash v proofhash old) (sym e) ∙ h)

module _ {F : Type 0} where
  -- The values of a list of strings.
  abbrev pub strings : List Bytes → List (Value F)
  strings [] = []
  strings (s ∷ ss) = str s ∷ strings ss

  -- The ids that come back, and those of the block: where the value is a list, it is the list of just
  -- these ids, in order, and the block keeps them; otherwise there are none, and the block is as before.
  pub data IdsOf (old bk : Block F) (ids : List Bytes) : Value F → Type 0 where
    listed : (xs : Items F) → elements xs ≡ strings ids → bk.vtx ≡ ids → IdsOf old bk ids (arr xs)
    unlisted :
        (v : Value F)
        → ((xs : Items F) → v ≢ arr xs)
        → ids ≡ []
        → bk.vtx ≡ old.vtx
        → IdsOf old bk ids v

  same_old :
      {old filled bk : Block F} {ids : List Bytes} (v : Value F)
      → filled.vtx ≡ old.vtx
      → IdsOf filled bk ids v
      → IdsOf old bk ids v
  same_old v e (listed xs same kept) = listed xs same kept
  same_old v e (unlisted _ other none_back kept) = unlisted v other none_back (kept ∙ e)

  all_strings-ok :
      (vs : List (Value F)) {ids : List Bytes} → all_strings vs ≡ ok ids → vs ≡ strings ids
  unfolding all_strings
  all_strings-ok [] h = ap strings (ok-injective h)
  all_strings-ok (v ∷ vs) h =
      let (s, e, p) = >>=-eq-ok (get_str v) _ h in
      let (ss, e₂, p₂) = >>=-eq-ok (all_strings vs) _ p in
      ap (λ x. x ∷ vs) (get_str-ok v e)
      ∙ ap (λ l. str s ∷ l) (all_strings-ok vs e₂)
      ∙ ap strings (ok-injective p₂)

module _ {F : Type 0} (text : JsonText F) where
  unread :
      (bk : Block F) {ids : List Bytes} {bk' : Block F}
      → ◌≡◌ {A = Result (List Bytes × Block F)} (ok ([], bk)) (ok (ids, bk'))
      → (bk'.hash ≡ bk.hash)
        × (bk'.height ≡ bk.height)
        × (bk'.proofhash ≡ bk.proofhash)
        × (ids ≡ [])
        × (bk'.vtx ≡ bk.vtx)
  unread bk h =
      let kept = ok-injective h in
      (
        sym (ap (λ (r : List Bytes × Block F). r.1.hash) kept),
        sym (ap (λ (r : List Bytes × Block F). r.1.height) kept),
        sym (ap (λ (r : List Bytes × Block F). r.1.proofhash) kept),
        sym (ap (λ (r : List Bytes × Block F). r.0) kept),
        sym (ap (λ (r : List Bytes × Block F). r.1.vtx) kept),
      )

  ids-ok :
      (v : Value F) (bk : Block F) {ids : List Bytes} {bk' : Block F}
      → switch_ids text v bk ≡ ok (ids, bk')
      → (bk'.hash ≡ bk.hash)
        × (bk'.height ≡ bk.height)
        × (bk'.proofhash ≡ bk.proofhash)
        × IdsOf bk bk' ids v
  unfolding switch_ids
  ids-ok (arr xs) bk h =
      let (ss, e, p) = >>=-eq-ok (all_strings (elements xs)) _ h in
      let kept = ok-injective p in
      (
        sym (ap (λ (r : List Bytes × Block F). r.1.hash) kept),
        sym (ap (λ (r : List Bytes × Block F). r.1.height) kept),
        sym (ap (λ (r : List Bytes × Block F). r.1.proofhash) kept),
        listed xs
            (all_strings-ok (elements xs) e
              ∙ ap strings (ap (λ (r : List Bytes × Block F). r.0) kept))
            (sym (ap (λ (r : List Bytes × Block F). r.1.vtx) kept)
              ∙ ap (λ (r : List Bytes × Block F). r.0) kept),
      )
  ids-ok null bk h =
      let (hash, height, proof, none_back, same) = unread bk h in
      (hash, height, proof, unlisted null (λ xs e. cc) none_back same)
  ids-ok (str s) bk h =
      let (hash, height, proof, none_back, same) = unread bk h in
      (hash, height, proof, unlisted (str s) (λ xs e. cc) none_back same)
  ids-ok (bool b) bk h =
      let (hash, height, proof, none_back, same) = unread bk h in
      (hash, height, proof, unlisted (bool b) (λ xs e. cc) none_back same)
  ids-ok (int n) bk h =
      let (hash, height, proof, none_back, same) = unread bk h in
      (hash, height, proof, unlisted (int n) (λ xs e. cc) none_back same)
  ids-ok (real x) bk h =
      let (hash, height, proof, none_back, same) = unread bk h in
      (hash, height, proof, unlisted (real x) (λ xs e. cc) none_back same)
  ids-ok (obj o) bk h =
      let (hash, height, proof, none_back, same) = unread bk h in
      (hash, height, proof, unlisted (obj o) (λ xs e. cc) none_back same)

  object-ok :
      (o : Fields F) (bk : Block F) {ids : List Bytes} {bk' : Block F}
      → switch_block_object text o bk ≡ ok (ids, bk')
      → (bk'.hash ≡ str_or (find_value o (codes "hash")) bk.hash)
        × ((m : ℤ) × (find_value o (codes "height") ≡ int m) × (bk'.height ≡ to_uint64 m))
        × ((f : Bytes)
            → find_value o (codes "flags") ≡ str f
            → find_value o (codes "proofhash") ≡ str bk'.proofhash)
        × IdsOf bk bk' ids (find_value o (codes "tx"))
  unfolding switch_block_object switch_strings
  object-ok o bk {ids} {bk'} h =
      let named = record bk { hash = str_or (find_value o (codes "hash")) bk.hash } in
      let (numbered, e₁, h₁) = >>=-eq-ok (switch_numbers o named) _ h in
      let described = switch_strings o numbered in
      let (proofhash, e₂, h₂) =
        >>=-eq-ok
          (switch_proofhash (find_value o (codes "flags")) (find_value o (codes "proofhash"))
            described.proofhash)
          _ h₁ in
      let (hash, (m, found, height), kept) = numbers-ok o named e₁ in
      let (hash₂, height₂, proof, same) = ids-ok (find_value o (codes "tx")) _ h₂ in
      (
        hash₂ ∙ hash,
        (m, found, height₂ ∙ height),
        λ f e.
            proofhash-ok (find_value o (codes "flags")) (find_value o (codes "proofhash")) _ f e e₂
            ∙ ap str (sym proof),
        same_old (find_value o (codes "tx")) kept same,
      )

  -- Reading a block out of a reply with an object for its result, where it does not throw: the hash
  -- is that of the object, or the old one where the object has no text for it; the height is the
  -- integer of the object, as an unsigned one of 64 bits; and where "tx" is a list, it is the list of
  -- just the ids that come back, in order, and the block keeps them, and otherwise none come back and the
  -- block has the ids it had.
  pub switch_block-fields :
      (reply : Fields F) (o : Fields F) (bk : Block F) {ids : List Bytes} {bk' : Block F}
      → find_value reply (codes "result") ≡ obj o
      → switch_block text reply bk ≡ ok (ids, bk')
      → (bk'.hash ≡ str_or (find_value o (codes "hash")) bk.hash)
        × ((m : ℤ) × (find_value o (codes "height") ≡ int m) × (bk'.height ≡ to_uint64 m))
        × IdsOf bk bk' ids (find_value o (codes "tx"))
  unfolding switch_block
  switch_block-fields reply o bk e h =
      let (hash, height, proof, same) =
        object-ok o bk (ap (λ v. switch_block_result text v bk) (sym e) ∙ h) in
      (hash, height, same)

  -- A reply with a block whose `flags` is a text and whose `proofhash` is none is not read: the
  -- reading throws, whatever else the block has.
  pub switch_block-proofhash :
      (reply : Fields F) (o : Fields F) (bk : Block F) (f : Bytes)
      → find_value reply (codes "result") ≡ obj o
      → find_value o (codes "flags") ≡ str f
      → ((s : Bytes) → find_value o (codes "proofhash") ≢ str s)
      → (r : List Bytes × Block F) → switch_block text reply bk ≢ ok r
  unfolding switch_block
  switch_block-proofhash reply o bk f e flags none_found (ids, bk') h =
      let (hash, height, proof, same) =
        object-ok o bk (ap (λ v. switch_block_result text v bk) (sym e) ∙ h) in
      none_found bk'.proofhash (proof f flags)
