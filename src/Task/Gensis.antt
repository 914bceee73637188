-- ===== src/Task/Gensis.antt =====
-- What the task that starts with block 0 stores.
use fidinventor.Base.{
  ℕ, zero, suc, ◌≡◌, refl, ap, sym, ◌∙◌, ◌⊎◌, inl, inr, Bool, true, false, List, [], ◌∷◌, ◌++◌,
  append_assoc, append-nil, length, arith, ℤ, pos, to_int32, leb_ℤ, if◌then◌else◌,
}
use fidinventor.Base.Text.{Bytes, strtoll}
use fidinventor.Base.Result.{Result, ok, ok-injective}
use fidinventor.Chain.Block.{Block, clear_block}
use fidinventor.Chain.Transaction.{Transaction}
use fidinventor.Db.Session.{Session}
use fidinventor.Db.Statements.{Statement}
use fidinventor.Db.Laws.{NeverFails, sending}
use fidinventor.Handler.World.{Env, World, pure, ◌>>=◌}
use fidinventor.Handler.Fetch.{Handler, get_block_count, get_block_by_number, get_transactions}
use fidinventor.Handler.Store.{insert_db_block, insert_db_trans, on_session, new_handler, reset}
use fidinventor.Handler.Inserts.{
  block_statements, txs_statements, insert_db_block-done, insert_txs-done,
}
use fidinventor.Handler.Frames.{
  continue-ok, get_block_by_number-session, get_transactions-session, get_block_count-session,
}
use fidinventor.Handler.Reads.{BlockOf, EachTx, get_block_by_number-ok, get_transactions-ok}
use fidinventor.Task.Types.{Task}
use fidinventor.Task.Run.{gensis_round, gensis_loop, wanted_height, rounds_to, call_gensis}

-- A block, the ids of the reply that it was read from, and its transactions.
pub record Fetched (F : Type 0) : Type 0 where
  pub block : Block F
  pub ids : List Bytes
  pub txs : List (Transaction F)

module _ {F : Type 0} where
  -- The rows of a block and its transactions, for each in turn.
  unfoldable pub rows_of : (ℤ → Bytes) → List (Fetched F) → List (Statement F)
  rows_of date_text [] = []
  rows_of date_text (f ∷ fs) =
      (block_statements date_text f.block ++ txs_statements date_text f.txs) ++ rows_of date_text fs

module _ (env : Env) where
  open env use {floats.{Float, zero}}

  -- A number of blocks that the node gives at a world.
  abbrev pub CountOf : World Float → ℤ → Type 0
  CountOf w count =
      (hand : Handler Float) × (w₁ : World Float) × (get_block_count env (new_handler env) w
        ≡ (ok (count, hand), w₁))

  -- The block at height `i` was read over a cleared one, and a transaction for each of its ids.
  abbrev pub FetchedAt : ℕ → Fetched Float → Type 0
  FetchedAt i f =
      BlockOf env (to_int32 (pos i)) (clear_block zero env.block_storage) f.block f.ids
      × EachTx env f.ids f.txs

  -- The blocks from height `i` on, in their order.
  abbrev pub FetchedFrom : ℕ → List (Fetched Float) → Type 0
  FetchedFrom i [] = Unit
  FetchedFrom i (f ∷ fs) = FetchedAt i f × FetchedFrom (suc i) fs

module _ (env : Env) (good : NeverFails (Env.server env)) where
  open env use {floats.{Float}, date_text}

  round-ok :
      (i : ℕ) (hand : Handler Float) (w : World Float) {hand' : Handler Float} {w' : World Float}
      → w.session.inited ≡ true
      → gensis_round env i hand w ≡ (ok hand', w')
      → (f : Fetched Float) × FetchedAt env i f
        × (w'.session
            ≡ sending w.session
                (block_statements date_text f.block ++ txs_statements date_text f.txs))
  unfolding gensis_round ◌>>=◌ on_session pure reset insert_db_trans clear_block
  round-ok i hand w opened h =
      let ((ids, hand₁), w₁, e₁, h₁) =
        continue-ok (get_block_by_number env (to_int32 (pos i)) (reset env hand) w) _ h in
      let (_, stored, e_b, h_b) =
        continue-ok (on_session env (insert_db_block env hand₁) w₁) _ h₁ in
      let (hand₂, w₂, e₂, h₂) = continue-ok (get_transactions env ids hand₁ stored) _ h_b in
      let (_, w₃, e₃, h₃) = continue-ok (on_session env (insert_db_trans env hand₂) w₂) _ h₂ in
      let (block_read, same_vtx) =
        get_block_by_number-ok env (to_int32 (pos i)) (reset env hand) w e₁ in
      let (txs, each, added, same_block) = get_transactions-ok env ids hand₁ _ e₂ in
      let vtx = added ∙ ap (λ l. l ++ txs) same_vtx in
      let same₁ =
        sym (ap (λ (r : Result (List Bytes × Handler Float) × World Float). r.1.session) e₁)
        ∙ get_block_by_number-session env (to_int32 (pos i)) (reset env hand) w w.session refl in
      let block_sent =
        sym (ap (λ (r : Result ℤ × World Float). r.1.session) e_b)
        ∙ ap (λ s. (insert_db_block env hand₁ s).1) same₁
        ∙ ap (λ r. r.1) (insert_db_block-done env good hand₁ w.session opened).1 in
      let same₂ =
        sym (ap (λ (r : Result (Handler Float) × World Float). r.1.session) e₂)
        ∙ get_transactions-session env ids hand₁ _ _ block_sent in
      let last =
        sym (ap (λ (r : Result ℤ × World Float). r.1.session) e₃)
        ∙ ap (λ s. (insert_db_trans env hand₂ s).1) same₂ in
      (
        record { block = hand₁.block; ids = ids; txs = txs },
        (block_read, each),
        sym (ap (λ (r : Result (Handler Float) × World Float). r.1.session) h₃)
            ∙ last
            ∙ ap (λ r. r.1)
                (insert_txs-done env good hand₂.vtx (pos 0)
                  (sending w.session (block_statements date_text hand₁.block)) opened).1
            ∙ ap (λ l. record w.session { sent = l }) (append_assoc w.session.sent _ _)
            ∙ ap
                (λ l.
                  sending w.session
                    (block_statements date_text hand₁.block ++ txs_statements date_text l))
                vtx,
      )

  loop-ok :
      (n i : ℕ) (hand : Handler Float) (w : World Float) {hand' : Handler Float} {w' : World Float}
      → w.session.inited ≡ true
      → gensis_loop env n i hand w ≡ (ok hand', w')
      → (fs : List (Fetched Float)) × (length fs ≡ n)
        × FetchedFrom env i fs
        × (w'.session ≡ sending w.session (rows_of date_text fs))
  unfolding gensis_loop ◌>>=◌ pure rows_of
  loop-ok zero i hand w opened h = (
    [],
    refl,
    tt,
    sym (ap (λ (r : Result (Handler Float) × World Float). r.1.session) h)
        ∙ ap (λ l. record w.session { sent = l }) (sym (append-nil w.session.sent)),
  )
  loop-ok (suc n) i hand w opened h =
      let (hand₁, w₁, e₁, h₁) = continue-ok (gensis_round env i hand w) _ h in
      let (f, each, sent) = round-ok i hand w opened e₁ in
      let (fs, count, all, later) =
        loop-ok n (suc i) hand₁ w₁ (ap (λ (s : Session Float). s.inited) sent ∙ opened) h₁ in
      (
        f ∷ fs,
        omega (arith, count),
        (each, all),
        later
            ∙ ap (λ (s : Session Float). sending s (rows_of date_text fs)) sent
            ∙ ap (λ l. record w.session { sent = l }) (append_assoc w.session.sent _ _),
      )

  wanted_by :
      (b : Bool) (command : Bytes) (w : World Float) {height : ℤ} {hand' : Handler Float}
      {w' : World Float}
      → (if b
            then get_block_count env (new_handler env)
            else pure (strtoll command, new_handler env))
          w
        ≡ (ok (height, hand'), w')
      → (w'.session ≡ w.session)
        × ((height ≡ strtoll command) ⊎ ((b ≡ true) × CountOf env w height))
  unfolding pure
  wanted_by true command w {height} {hand'} {w'} h = (
    sym (ap (λ (r : Result (ℤ × Handler Float) × World Float). r.1.session) h)
        ∙ get_block_count-session env (new_handler env) w w.session refl,
    inr (refl, (hand', w', h)),
  )
  wanted_by false command w h = (
    sym (ap (λ (r : Result (ℤ × Handler Float) × World Float). r.1.session) h),
    inl (
        sym (
          ap (λ (r : ℤ × Handler Float). r.0)
            (ok-injective (ap (λ (r : Result (ℤ × Handler Float) × World Float). r.0) h)))),
  )

  wanted-ok :
      (command : Bytes) (w : World Float) {height : ℤ} {hand' : Handler Float} {w' : World Float}
      → wanted_height env command (new_handler env) w ≡ (ok (height, hand'), w')
      → (w'.session ≡ w.session)
        × ((height ≡ strtoll command)
            ⊎ ((leb_ℤ (strtoll command) (pos 0) ≡ true) × CountOf env w height))
  unfolding wanted_height
  wanted-ok command w h = wanted_by (leb_ℤ (strtoll command) (pos 0)) command w h

  -- The task that starts with block 0 and returns, over a connection that is open and does not fail,
  -- has stored the blocks of the heights from 0 to its own, in order: each was read out of a reply to
  -- the call for its height, and for each of the ids of that reply a transaction out of a reply to the
  -- call for the id; the row of a block that has a hash is sent before those of its transactions that
  -- have an id. The height is that of the command where this is positive, and else the number of blocks
  -- that the node gives; it is the new height of the task.
  pub call_gensis-ok :
      (task : Task) (w : World Float) {task' : Task} {w' : World Float}
      → w.session.inited ≡ true
      → call_gensis env task w ≡ (ok task', w')
      → (height : ℤ) × (fs : List (Fetched Float)) × ((height ≡ strtoll task.command)
          ⊎ ((leb_ℤ (strtoll task.command) (pos 0) ≡ true) × CountOf env w height))
        × (length fs ≡ rounds_to env height)
        × (task'.height ≡ to_int32 height)
        × FetchedFrom env 0 fs
        × (w'.session ≡ sending w.session (rows_of date_text fs))
  unfolding call_gensis ◌>>=◌ pure
  call_gensis-ok task w opened h =
      let ((height, hand), w₁, e₁, h₁) =
        continue-ok (wanted_height env task.command (new_handler env) w) _ h in
      let (hand', w₂, e₂, h₂) =
        continue-ok (gensis_loop env (rounds_to env height) 0 hand w₁) _ h₁ in
      let (same, wanted) = wanted-ok task.command w e₁ in
      let (fs, count, all, sent) =
        loop-ok (rounds_to env height) 0 hand w₁
          (ap (λ (s : Session Float). s.inited) same ∙ opened) e₂ in
      let done = ok-injective (ap (λ (r : Result Task × World Float). r.0) h₂) in
      (
        height,
        fs,
        wanted,
        count,
        sym (ap (λ (t : Task). t.height) done),
        all,
        sym (ap (λ (r : Result Task × World Float). r.1.session) h₂)
            ∙ sent
            ∙ ap (λ (s : Session Float). sending s (rows_of date_text fs)) same,
      )
