-- ===== src/Main/Laws.antt =====
-- Where the program goes on: the block that the first scheduler task wants.
use fidinventor.Base.{
  ℕ, ◌≡◌, ap, ◌∙◌, true, some, List, [], if◌then◌else◌, ◌+◌, ◌<◌, ◌^◌, ℤ, pos, ◌+ℤ◌, ltb_ℤ, arith,
}
use fidinventor.Base.Text.{Bytes}
use fidinventor.Base.Dict.{Dict}
use fidinventor.Base.Result.{ok, ◌>>=◌}
use fidinventor.Base.Decimal.{IsInt64, strtoll-decimal_ℤ}
use fidinventor.Args.{i64tostr}
use fidinventor.Db.Session.{Session, init_db, query_block_count}
use fidinventor.Handler.World.{Env}
use fidinventor.Task.Types.{task_block_or_trans, new_task}
use fidinventor.Task.Schedule.{Registry, get_task}
use fidinventor.Task.Registry.{registered, register_task-get_task}
use fidinventor.Task.Run.{task_height}
use fidinventor.Task.Follow.{next_pos}
use fidinventor.Main.{by_count, init_gensis_block, init_by_task, start_scheduler}

pub wanted-registered :
    (env : Env) (storage n seq : ℤ)
    → IsInt64 n
    → task_height env (registered storage task_block_or_trans (i64tostr n) seq) ≡ n
unfolding task_height new_task i64tostr
wanted-registered env storage n seq h = strtoll-decimal_ℤ n h

is_some : (n : ℕ) → 0 < n → ltb_ℤ (pos 0) (pos n) ≡ true
is_some n h = ground arith

pub by_count-some :
    (env : Env) (args : Dict Bytes) (storage : ℤ) (readings : List ℤ) (s : Session _) (r : Registry)
    (n : ℕ)
    → 0 < n
    → by_count env.server args storage readings s r (pos n)
      ≡ some (record { code = pos (n + 1); height = pos (n + 1); session = s; registry = r })
unfolding by_count
by_count-some env args storage readings s r n h =
    ap
      (λ b.
        if b
        then some
            (record { code = pos n +ℤ pos 1; height = pos n +ℤ pos 1; session = s; registry = r })
        else init_by_task env.server args storage readings (pos n) s r)
      (is_some n h)
    ∙ ap (λ h. some (record { code = h; height = h; session = s; registry = r })) (next_pos n)

-- The program starts with a login that succeeds and a database of `n` blocks, `n` being positive: the initialisation reports
-- `n + 1` and runs no task, whatever is read of one, and the scheduler that is started then holds a
-- task, under the number that it got, that wants the block at height `n + 1`.
pub starts_behind_blocks :
    (env : Env) (args : Dict Bytes) (storage other : ℤ) (readings : List ℤ) (s : Session _)
    (r : Registry) (n : ℕ) {code : ℤ}
    → 0 < n
    → n + 1 < 2 ^ 63
    → (init_db env.server args s).0 ≡ ok code
    → query_block_count env.server (init_db env.server args s).1 ≡ ok (pos n)
    → (init_gensis_block env.server args storage readings s r
        ≡ ok (
            some (record {
              code = pos (n + 1);
              height = pos (n + 1);
              session = (init_db env.server args s).1;
              registry = r;
            })))
      × ((start_scheduler storage (pos (n + 1)) r).0 ≡ r.sequence)
      × (task_height env
            (get_task other r.sequence (start_scheduler storage (pos (n + 1)) r).1.tasks)
          ≡ pos (n + 1))
unfolding init_gensis_block start_scheduler
starts_behind_blocks env args storage other readings s r n some_block fits login count =
    let (numbered, given, found) =
      register_task-get_task storage other task_block_or_trans (i64tostr (pos (n + 1)))
        (record r { tasks = [] }) tt in
    (
      ap
            (λ r₁. r₁ >>= λ _.
              query_block_count env.server (init_db env.server args s).1 >>= λ count.
              ok (by_count env.server args storage readings (init_db env.server args s).1 r count))
            login
          ∙ ap
              (λ r₁. r₁ >>= λ count.
                ok
                  (by_count env.server args storage readings (init_db env.server args s).1 r count))
              count
          ∙ ap ok (
              by_count-some env args storage readings (init_db env.server args s).1 r n some_block),
      given,
      ap (task_height env) found ∙ wanted-registered env storage (pos (n + 1)) r.sequence fits,
    )
