-- ===== src/Task/Extends.antt =====
-- What tasks and schedulers never do, whatever the node and the database do.
use fidinventor.Base.{
  ℕ, zero, suc, Bool, true, false, List, [], ◌∷◌, ℤ, pos, to_int32, ltb_ℤ, leb_ℤ,
}
use fidinventor.Base.Text.{strtoll}
use fidinventor.Handler.World.{Env, World, Action, pure, lift, ◌>>=◌}
use fidinventor.Handler.Fetch.{
  Handler, get_block_count, get_block_by_number, get_transaction, get_transactions,
}
use fidinventor.Handler.Store.{new_handler, reset}
use fidinventor.Handler.Extends.{
  Extends, Extends-refl, continue-Extends, if-Extends, get_block_count-Extends,
  get_block_by_number-Extends, get_transaction-Extends, get_transactions-Extends,
  insert_db_block-Extends, insert_db_trans-Extends, insert_db_block_trans-Extends,
}
use fidinventor.Task.Types.{
  TaskType, Task, task_null, task_blockgensis, task_blockinfo, task_blockheight, task_block,
  task_transaction, task_block_or_trans, task_callrpc, task_callsql, task_all,
}
use fidinventor.Handler.Store.{on_session, insert_db_block, insert_db_trans, insert_db_block_trans}
use fidinventor.Task.Run.{
  fixed_txid, gensis_round, gensis_loop, wanted_height, rounds_to, call_gensis, call_block,
  call_transaction, call_at_height, task_height, call_at_count, call_block_or_trans, call,
}
use fidinventor.Task.Schedule.{Round, Loop, note_task, start_round, run_tasks, after_tasks, work}

module _ (env : Env) {w₀ : World env.floats.Float} where
  open env use {floats.{Float}}

  gensis_round-Extends :
      (i : ℕ) (hand : Handler Float) (w : World Float)
      → Extends w₀ w
      → Extends w₀ (gensis_round env i hand w).1
  unfolding gensis_round ◌>>=◌ pure
  gensis_round-Extends i hand w x =
      continue-Extends (get_block_by_number env (to_int32 (pos i)) (reset env hand) w) _
        (get_block_by_number-Extends env (to_int32 (pos i)) (reset env hand) w x)
        (λ r w₁ x₁.
          continue-Extends (on_session env (insert_db_block env r.1) w₁) _
            (insert_db_block-Extends env r.1 w₁ x₁)
            (λ _ w_b x_b.
              continue-Extends (get_transactions env r.0 r.1 w_b) _
                (get_transactions-Extends env r.0 r.1 w_b x_b)
                (λ hand₂ w₂ x₂.
                  continue-Extends (on_session env (insert_db_trans env hand₂) w₂) _
                    (insert_db_trans-Extends env hand₂ w₂ x₂) (λ _ w₃ x₃. x₃))))

  gensis_loop-Extends :
      (n i : ℕ) (hand : Handler Float) (w : World Float)
      → Extends w₀ w
      → Extends w₀ (gensis_loop env n i hand w).1
  unfolding gensis_loop ◌>>=◌ pure
  gensis_loop-Extends zero i hand w x = x
  gensis_loop-Extends (suc n) i hand w x =
      continue-Extends (gensis_round env i hand w) _ (gensis_round-Extends i hand w x)
        (λ hand₁ w₁ x₁. gensis_loop-Extends n (suc i) hand₁ w₁ x₁)

  call_gensis-Extends :
      (task : Task) (w : World Float) → Extends w₀ w → Extends w₀ (call_gensis env task w).1
  unfolding call_gensis wanted_height ◌>>=◌ pure
  call_gensis-Extends task w x =
      continue-Extends (wanted_height env task.command (new_handler env) w) _
        (if-Extends (leb_ℤ (strtoll task.command) (pos 0)) (get_block_count env (new_handler env))
          (pure (strtoll task.command, new_handler env)) w
          (get_block_count-Extends env (new_handler env) w x) x)
        (λ r w₁ x₁.
          continue-Extends (gensis_loop env (rounds_to env r.0) 0 r.1 w₁) _
            (gensis_loop-Extends (rounds_to env r.0) 0 r.1 w₁ x₁) (λ hand w₂ x₂. x₂))

  call_block-Extends :
      (task : Task) (w : World Float) → Extends w₀ w → Extends w₀ (call_block env task w).1
  unfolding call_block ◌>>=◌ pure
  call_block-Extends task w x =
      continue-Extends (get_block_by_number env _ (new_handler env) w) _
        (get_block_by_number-Extends env _ (new_handler env) w x)
        (λ r w₁ x₁.
          continue-Extends (on_session env (insert_db_block env r.1) w₁) _
            (insert_db_block-Extends env r.1 w₁ x₁) (λ _ w₂ x₂. x₂))

  call_transaction-Extends :
      (task : Task) (w : World Float) → Extends w₀ w → Extends w₀ (call_transaction env task w).1
  unfolding call_transaction ◌>>=◌ pure
  call_transaction-Extends task w x =
      continue-Extends (get_transaction env fixed_txid (new_handler env) w) _
        (get_transaction-Extends env fixed_txid (new_handler env) w x)
        (λ r w₁ x₁.
          continue-Extends (on_session env (insert_db_trans env r.1) w₁) _
            (insert_db_trans-Extends env r.1 w₁ x₁) (λ _ w₂ x₂. x₂))

  call_at_height-Extends :
      (height : ℤ) (hand : Handler Float) (task : Task) (w : World Float)
      → Extends w₀ w
      → Extends w₀ (call_at_height env height hand task w).1
  unfolding call_at_height ◌>>=◌ pure
  call_at_height-Extends height hand task w x =
      continue-Extends (get_block_by_number env (to_int32 height) hand w) _
        (get_block_by_number-Extends env (to_int32 height) hand w x)
        (λ r w₁ x₁.
          continue-Extends (get_transactions env r.0 r.1 w₁) _
            (get_transactions-Extends env r.0 r.1 w₁ x₁)
            (λ hand₂ w₂ x₂.
              continue-Extends (on_session env (insert_db_block_trans env hand₂) w₂) _
                (insert_db_block_trans-Extends env hand₂ w₂ x₂) (λ _ w₃ x₃. x₃)))

  call_block_or_trans-Extends :
      (task : Task) (w : World Float) → Extends w₀ w → Extends w₀ (call_block_or_trans env task w).1
  unfolding call_block_or_trans call_at_count ◌>>=◌ pure
  call_block_or_trans-Extends task w x =
      continue-Extends (get_block_count env (new_handler env) w) _
        (get_block_count-Extends env (new_handler env) w x)
        (λ r w₁ x₁.
          if-Extends (leb_ℤ (task_height env task) (pos 0)) _ _ w₁
            (call_at_height-Extends r.0 r.1 task w₁ x₁)
            (if-Extends (ltb_ℤ r.0 (task_height env task)) _ _ w₁ x₁
              (call_at_height-Extends (task_height env task) r.1 task w₁ x₁)))

  call-Extends : (task : Task) (w : World Float) → Extends w₀ w → Extends w₀ (call env task w).1
  unfolding call pure
  call-Extends task w x = by_type task.type
    where
      by_type :
          (type : TaskType)
          → Extends w₀
              (elim type as (λ t. Action Float Task) [
                | task_null ↦ pure task
                | task_blockgensis ↦ call_gensis env task
                | task_blockinfo ↦ pure task
                | task_blockheight ↦ pure task
                | task_block ↦ call_block env task
                | task_transaction ↦ call_transaction env task
                | task_block_or_trans ↦ call_block_or_trans env task
                | task_callrpc ↦ pure task
                | task_callsql ↦ pure task
                | task_all ↦ pure task
              ]
                w).1
      by_type task_null = x
      by_type task_blockgensis = call_gensis-Extends task w x
      by_type task_blockinfo = x
      by_type task_blockheight = x
      by_type task_block = call_block-Extends task w x
      by_type task_transaction = call_transaction-Extends task w x
      by_type task_block_or_trans = call_block_or_trans-Extends task w x
      by_type task_callrpc = x
      by_type task_callsql = x
      by_type task_all = x

  run_tasks-Extends :
      (ts : List Task) (round : Round) (w : World Float)
      → Extends w₀ w
      → Extends w₀ (run_tasks env ts round w).1
  unfolding run_tasks ◌>>=◌ pure
  run_tasks-Extends [] round w x = x
  run_tasks-Extends (t ∷ ts) round w x =
      continue-Extends (call env t w) _ (call-Extends t w x)
        (λ done w₁ x₁. run_tasks-Extends ts (note_task t done round) w₁ x₁)

  later-Extends :
      (once : Bool) (times : List (ℤ × ℤ)) (loop : Loop) (w : World Float)
      → Extends w₀ w
      → Extends w₀ (work env once times loop w).1
  unfolding work ◌>>=◌ pure lift
  later-Extends once [] loop w x = x
  later-Extends true (now ∷ times) loop w x =
      continue-Extends (run_tasks env loop.tasks start_round w) _
        (run_tasks-Extends loop.tasks start_round w x) (λ round w₁ x₁. x₁)
  later-Extends false ((t2, t1) ∷ times) loop w x =
      continue-Extends (run_tasks env loop.tasks start_round w) _
        (run_tasks-Extends loop.tasks start_round w x)
        (λ round w₁ x₁.
          continue-Extends (after_tasks t2 t1 loop round, w₁) _ x₁
            (λ r w₂ x₂.
              continue-Extends (work env false times r.0 w₂) _ (later-Extends false times r.0 w₂ x₂)
                (λ last w₃ x₃. x₃)))

-- Rounds of a scheduler, whatever its tasks, its node and its database do, and also where a round
-- throws: each call of the node asks for the number of blocks, a block or a transaction; no statement
-- that was carried out and no login is taken back; and a connection that was open stays open.
pub work-Extends :
    (env : Env) (once : Bool) (times : List (ℤ × ℤ)) (loop : Loop) (w : World env.floats.Float)
    → Extends w (work env once times loop w).1
work-Extends env once times loop w = later-Extends env once times loop w (Extends-refl w)
