-- ===== src/Tests/Live.antt =====
-- The node of nine blocks, of which two are still to be stored.
use fidinventor.Base.{ℕ, zero, suc, ◌+◌, ◌<◌, ◌≡◌, refl, false, List, arith, length, pos}
use fidinventor.Base.Text.{eq_bytes, strtoll}
use fidinventor.Base.Decimal.{decimal_ℤ}
use fidinventor.Rpc.Convert.{convert}
use fidinventor.Handler.Fetch.{get_block_count, get_block_by_number, get_transactions}
use fidinventor.Task.Run.{task_height}
use fidinventor.Task.Schedule.{get_task}
use fidinventor.Task.Gensis.{Fetched}
use fidinventor.Task.Follow.{Followed}
use fidinventor.Task.Stores.{AnswersAt}
use fidinventor.Main.System.{System, Reach, follow_look}
use fidinventor.Main.Live.{catches_up}
use fidinventor.Tests.Programs.{start}
use fidinventor.Tests.Systems.{
  nine_env, nine_HasSmallCounts, six_NeverFails, seventh_steps, behind_seventh,
}

has_block_8 : AnswersAt nine_env 8
unfolding get_block_count get_block_by_number get_transactions eq_bytes decimal_ℤ convert strtoll
has_block_8 = record {
  counts = λ w. (pos 9, _, _, refl, refl);
  fetches = λ hand w. (_, _, _, refl, _, _, refl);
}

has_block_9 : AnswersAt nine_env 9
unfolding get_block_count get_block_by_number get_transactions eq_bytes decimal_ℤ convert strtoll
has_block_9 = record {
  counts = λ w. (pos 9, _, _, refl, refl);
  fetches = λ hand w. (_, _, _, refl, _, _, refl);
}

two_answers : (i : ℕ) → i < 2 → AnswersAt nine_env (8 + i)
two_answers zero h = has_block_8
two_answers (suc zero) h = has_block_9
two_answers (suc (suc i)) h = absurd (omega arith)

catches_up_example :
    (s : System ℕ _) × Reach nine_env false (pos 0) (pos 1) follow_look behind_seventh s
    × (fetched : List (Fetched ℕ)) × (7 + length fetched ≡ 8 + 2)
    × Followed nine_env 7 start s.world fetched
unfolding task_height get_task
catches_up_example =
    catches_up nine_env six_NeverFails nine_HasSmallCounts (pos 0) (pos 1) 7 (omega arith) start 8 2
      refl (omega arith) seventh_steps refl two_answers
