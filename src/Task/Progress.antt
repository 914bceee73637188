-- ===== src/Task/Progress.antt =====
-- What a task for the next block does: which block it stores, and what it reports.
use fidinventor.Base.{
  ◌≡◌, refl, ap, sym, ◌∙◌, ◌⊎◌, inl, inr, Bool, true, false, List, [], ◌++◌, ℤ, pos, to_int32,
  ltb_ℤ, leb_ℤ, if◌then◌else◌,
}
use fidinventor.Base.Text.{Bytes}
use fidinventor.Base.Result.{Result, ok, ok-injective}
use fidinventor.Json.Value.{Floats}
use fidinventor.Chain.Block.{Block}
use fidinventor.Chain.Transaction.{Transaction}
use fidinventor.Db.Laws.{NeverFails, sending}
use fidinventor.Handler.World.{Env, World, pure, ◌>>=◌}
use fidinventor.Handler.Fetch.{Handler, get_block_by_number, get_transactions}
use fidinventor.Handler.Store.{insert_db_block_trans, on_session}
use fidinventor.Handler.Inserts.{block_statements, txs_statements, insert_db_block_trans-done}
use fidinventor.Handler.Reads.{BlockOf, EachTx, get_block_by_number-ok, get_transactions-ok}
use fidinventor.Handler.Frames.{continue-ok, get_block_by_number-session, get_transactions-session}
use fidinventor.Task.Types.{Task}
use fidinventor.Task.Run.{call_at_height, task_height, call_at_count}

-- What a task leaves that stored a block: the block at the height was read out of a reply, over an old
-- one, each transaction out of the reply for its id, and all their rows were sent.
pub record Stored (env : Env) (old : Block (Floats.Float (Env.floats env))) (height : ℤ)
    (w w' : World (Floats.Float (Env.floats env))) (task : Task) : Type 0 where
  pub block : Block (Floats.Float (Env.floats env))
  pub ids : List Bytes
  pub txs : List (Transaction (Floats.Float (Env.floats env)))
  pub block_read : BlockOf env (to_int32 height) old block ids
  pub txs_read : EachTx env ids txs
  pub status_done : task.status ≡ pos 1
  pub at_height : task.height ≡ to_int32 height
  pub block_time : task.bktime ≡ to_int32 block.time
  pub rows_sent :
      w'.session
      ≡ sending w.session
          (block_statements (Env.date_text env) block ++ txs_statements (Env.date_text env) txs)

-- What a task leaves that waits for its block.
pub record Waits {F : Type 0} (task : Task) (w : World F) (task' : Task) (w' : World F)
    : Type 0 where
  pub status_open : task'.status ≡ pos 0
  pub same_height : task'.height ≡ task.height
  pub same_world : w' ≡ w

module _ (env : Env) (good : NeverFails (Env.server env)) where
  open env use {floats.{Float}, date_text}

  pub call_at_height-ok :
      (height : ℤ) (hand : Handler Float) (task : Task) (w : World Float) {task' : Task}
      {w' : World Float}
      → w.session.inited ≡ true
      → hand.vtx ≡ []
      → call_at_height env height hand task w ≡ (ok task', w')
      → Stored env hand.block height w w' task'
  unfolding call_at_height ◌>>=◌ on_session pure
  call_at_height-ok height hand task w opened none_before h =
      let ((ids, hand₁), w₁, e₁, h₁) =
        continue-ok (get_block_by_number env (to_int32 height) hand w) _ h in
      let (hand₂, w₂, e₂, h₂) = continue-ok (get_transactions env ids hand₁ w₁) _ h₁ in
      let (_, w₃, e₃, h₃) =
        continue-ok (on_session env (insert_db_block_trans env hand₂) w₂) _ h₂ in
      let (block_read, same_vtx) = get_block_by_number-ok env (to_int32 height) hand w e₁ in
      let (txs, each, added, same_block) = get_transactions-ok env ids hand₁ w₁ e₂ in
      let vtx = added ∙ ap (λ l. l ++ txs) (same_vtx ∙ none_before) in
      let done = ok-injective (ap (λ (r : Result Task × World Float). r.0) h₃) in
      let last =
        ap (λ (r : Result ℤ × World Float). r.1.session) e₃
        ∙ ap (λ (r : Result Task × World Float). r.1.session) h₃ in
      let same₁ =
        sym (ap (λ (r : Result (List Bytes × Handler Float) × World Float). r.1.session) e₁)
        ∙ get_block_by_number-session env (to_int32 height) hand w w.session refl in
      let same =
        sym (ap (λ (r : Result (Handler Float) × World Float). r.1.session) e₂)
        ∙ get_transactions-session env ids hand₁ w₁ w.session same₁ in
      record {
        block = hand₁.block;
        ids = ids;
        txs = txs;
        block_read = block_read;
        txs_read = each;
        status_done = sym (ap (λ (t : Task). t.status) done);
        at_height = sym (ap (λ (t : Task). t.height) done);
        block_time =
            sym (ap (λ (t : Task). t.bktime) done)
            ∙ ap (λ (b : Block Float). to_int32 b.time) same_block;
        rows_sent =
            sym last
            ∙ ap (λ s. (insert_db_block_trans env hand₂ s).1) same
            ∙ ap (λ r. r.1) (insert_db_block_trans-done env good hand₂ w.session opened)
            ∙ ap
                (λ b.
                  sending w.session
                    (block_statements date_text b ++ txs_statements date_text hand₂.vtx))
                same_block
            ∙ ap
                (λ l.
                  sending w.session
                    (block_statements date_text hand₁.block ++ txs_statements date_text l))
                vtx;
      }

  by_tests :
      (b beyond : Bool) (task : Task) (count : ℤ) (hand : Handler Float) (w : World Float)
      {task' : Task} {w' : World Float}
      → w.session.inited ≡ true
      → hand.vtx ≡ []
      → (if b
            then call_at_height env count hand task
            else if beyond
            then pure (record task { status = pos 0 })
            else call_at_height env (task_height env task) hand task)
          w
        ≡ (ok task', w')
      → ((b ≡ false) × (beyond ≡ true) × Waits task w task' w')
        ⊎ Stored env hand.block (if b then count else task_height env task) w w' task'
  unfolding pure
  by_tests true beyond task count hand w opened none_before h =
      inr (call_at_height-ok count hand task w opened none_before h)
  by_tests false true task count hand w opened none_before h =
      let done = ok-injective (ap (λ (r : Result Task × World Float). r.0) h) in
      inl (
        refl,
        refl,
        record {
          status_open = sym (ap (λ (t : Task). t.status) done);
          same_height = sym (ap (λ (t : Task). t.height) done);
          same_world = sym (ap (λ (r : Result Task × World Float). r.1) h);
        },
      )
  by_tests false false task count hand w opened none_before h =
      inr (call_at_height-ok (task_height env task) hand task w opened none_before h)

  -- What a task does by the number of blocks: a positive height beyond it waits, and any other does not.
  wait_by_count :
      (b beyond : Bool) (task : Task) (count : ℤ) (hand : Handler Float) (w : World Float)
      {task' : Task} {w' : World Float}
      → w.session.inited ≡ true
      → hand.vtx ≡ []
      → b ≡ false
      → (if b
            then call_at_height env count hand task
            else if beyond
            then pure (record task { status = pos 0 })
            else call_at_height env (task_height env task) hand task)
          w
        ≡ (ok task', w')
      → Waits task w task' w'
        ⊎ ((beyond ≡ false) × Stored env hand.block (task_height env task) w w' task')
  unfolding pure
  wait_by_count true beyond task count hand w opened none_before e h = absurd (cc)
  wait_by_count false true task count hand w opened none_before e h =
      let done = ok-injective (ap (λ (r : Result Task × World Float). r.0) h) in
      inl (record {
        status_open = sym (ap (λ (t : Task). t.status) done);
        same_height = sym (ap (λ (t : Task). t.height) done);
        same_world = sym (ap (λ (r : Result Task × World Float). r.1) h);
      })
  wait_by_count false false task count hand w opened none_before e h =
      inr (refl, call_at_height-ok (task_height env task) hand task w opened none_before h)

  -- A task that wants a positive height: it waits, or stores the block at that height, which is then at
  -- most the number of blocks.
  pub call_at_count-pos :
      (task : Task) (count : ℤ) (hand : Handler Float) (w : World Float) {task' : Task}
      {w' : World Float}
      → w.session.inited ≡ true
      → hand.vtx ≡ []
      → leb_ℤ (task_height env task) (pos 0) ≡ false
      → call_at_count env task (count, hand) w ≡ (ok task', w')
      → Waits task w task' w'
        ⊎ ((ltb_ℤ count (task_height env task) ≡ false)
            × Stored env hand.block (task_height env task) w w' task')
  unfolding call_at_count
  call_at_count-pos task count hand w opened none_before wanted h =
      wait_by_count (leb_ℤ (task_height env task) (pos 0)) (ltb_ℤ count (task_height env task)) task
        count hand w opened none_before wanted h

  -- A task for the next block that returns, with no transactions before, over a connection that is
  -- open and does not fail: where the height it wants is positive and beyond the number of blocks, it
  -- reports status 0, and neither its height nor the world has changed. Otherwise it reports status 1,
  -- and its height is the wanted one, or the number of blocks where the wanted one is not positive; a
  -- block was read out of a reply to the call for that height, and for each of the ids of the reply a
  -- transaction out of a reply to the call for the id; and what was sent are the rows of the block, if
  -- it has a hash, and of the transactions that have an id.
  pub call_at_count-ok :
      (task : Task) (count : ℤ) (hand : Handler Float) (w : World Float) {task' : Task}
      {w' : World Float}
      → w.session.inited ≡ true
      → hand.vtx ≡ []
      → call_at_count env task (count, hand) w ≡ (ok task', w')
      → ((leb_ℤ (task_height env task) (pos 0) ≡ false)
          × (ltb_ℤ count (task_height env task) ≡ true)
          × Waits task w task' w')
        ⊎ Stored env hand.block
            (if leb_ℤ (task_height env task) (pos 0) then count else task_height env task)
            w
            w'
            task'
  unfolding call_at_count
  call_at_count-ok task count hand w opened none_before h =
      by_tests (leb_ℤ (task_height env task) (pos 0)) (ltb_ℤ count (task_height env task)) task
        count hand w opened none_before h
