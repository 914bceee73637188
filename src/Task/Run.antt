-- ===== src/Task/Run.antt =====
-- `CFidTask::call()`: what a task does, by its type.
use fidinventor.Base.{
  ℕ, zero, suc, ℤ, pos, negsuc, to_int32, ltb_ℤ, leb_ℤ, eq_ℤ, not, if◌then◌else◌,
}
use fidinventor.Base.Text.{Bytes, codes, strtoll}
use fidinventor.Handler.World.{Env, Action, pure, ◌>>=◌}
use fidinventor.Handler.Fetch.{
  Handler, get_block_count, get_block_by_number, get_transaction, get_transactions,
}
use fidinventor.Handler.Store.{
  insert_db_block, insert_db_trans, insert_db_block_trans, on_session, new_handler, reset,
}
use fidinventor.Task.Types.{
  TaskType, Task, task_blockgensis, task_block, task_transaction, task_block_or_trans,
}

-- The transaction id that `TASK_TRANSACTION` asks for.
abbrev pub fixed_txid : Bytes
fixed_txid = codes "23db66e0fad7d37fde886bb7d319ab0831d54122bbde0bcc2739db69971b0af1"

module _ (env : Env) where
  open env use {floats.{Float}}

  -- The body of the loop over the heights, at height `i`.
  unfoldable pub gensis_round : ℕ → Handler Float → Action Float (Handler Float)
  unfolding ◌>>=◌ pure get_block_by_number get_transactions on_session reset insert_db_block
      insert_db_trans
  gensis_round i hand = do
    (ids, hand₁) ← get_block_by_number env (to_int32 (pos i)) (reset env hand)
    code ← on_session env (insert_db_block env hand₁)
    hand₂ ← get_transactions env ids hand₁
    code₂ ← on_session env (insert_db_trans env hand₂)
    pure hand₂

  -- `n` rounds from height `i` on.
  unfoldable pub gensis_loop : ℕ → ℕ → Handler Float → Action Float (Handler Float)
  unfolding gensis_round ◌>>=◌ pure
  gensis_loop zero i hand = pure hand
  gensis_loop (suc n) i hand = do hand' ← gensis_round i hand; gensis_loop n (suc i) hand'

  -- The height that a command or else the node gives.
  unfoldable pub wanted_height : Bytes → Handler Float → Action Float (ℤ × Handler Float)
  unfolding get_block_count pure strtoll
  wanted_height command hand =
      if leb_ℤ (strtoll command) (pos 0)
      then get_block_count env hand
      else pure (strtoll command, hand)

  -- The number of rounds of `for(i=0; i<=height; i++)`.
  abbrev pub rounds_to : ℤ → ℕ
  rounds_to (pos n) = suc n
  rounds_to (negsuc n) = 0

  unfoldable pub call_gensis : Task → Action Float Task
  unfolding wanted_height gensis_loop ◌>>=◌ pure new_handler
  call_gensis task = do
    (height, hand) ← wanted_height task.command (new_handler env)
    hand' ← gensis_loop (rounds_to height) 0 hand
    pure (record task { height = to_int32 height })

  unfoldable pub call_block : Task → Action Float Task
  unfolding get_block_by_number on_session insert_db_block ◌>>=◌ pure new_handler strtoll
  call_block task = do
    let height = strtoll task.command
    (ids, hand) ←
        get_block_by_number env (to_int32 (if ltb_ℤ (pos 0) height then height else pos 0))
          (new_handler env)
    code ← on_session env (insert_db_block env hand)
    pure task

  unfoldable pub call_transaction : Task → Action Float Task
  unfolding get_transaction on_session insert_db_trans ◌>>=◌ pure new_handler
  call_transaction task = do
    (code, hand) ← get_transaction env fixed_txid (new_handler env)
    code₂ ← on_session env (insert_db_trans env hand)
    pure task

  -- The block at a height and its transactions go to the database, and the task is done.
  unfoldable pub call_at_height : ℤ → Handler Float → Task → Action Float Task
  unfolding get_block_by_number get_transactions on_session insert_db_block_trans ◌>>=◌ pure
  call_at_height height hand task = do
    (ids, hand₁) ← get_block_by_number env (to_int32 height) hand
    hand₂ ← get_transactions env ids hand₁
    code ← on_session env (insert_db_block_trans env hand₂)
    pure (record task {
      height = to_int32 height;
      status = pos 1;
      bktime = to_int32 hand₂.block.time;
    })

  -- The height of the task, or that of its command where it has none.
  unfoldable pub task_height : Task → ℤ
  unfolding strtoll
  task_height task = if not (eq_ℤ task.height (negsuc 0)) then task.height else strtoll task.command

  unfoldable pub call_at_count : Task → ℤ × Handler Float → Action Float Task
  unfolding task_height call_at_height pure
  call_at_count task (count, hand) =
      if leb_ℤ (task_height task) (pos 0)
      then call_at_height count hand task
      else if ltb_ℤ count (task_height task)
      then pure (record task { status = pos 0 })
      else call_at_height (task_height task) hand task

  unfoldable pub call_block_or_trans : Task → Action Float Task
  unfolding get_block_count call_at_count ◌>>=◌ new_handler
  call_block_or_trans task = do
    counted ← get_block_count env (new_handler env)
    call_at_count task counted

  -- `call()`: the task after the call; the result is always 0.
  unfoldable pub call : Task → Action Float Task
  unfolding call_gensis call_block call_transaction call_block_or_trans pure
  call task = by_type task.type
    where
      by_type : TaskType → Action Float Task
      by_type task_blockgensis = call_gensis task
      by_type task_block = call_block task
      by_type task_transaction = call_transaction task
      by_type task_block_or_trans = call_block_or_trans task
      by_type other = pure task
