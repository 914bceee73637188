-- ===== src/Main.antt =====
-- src/main.cc: `initConfig`, `initGensisBlock`, `main` up to its loop, and the heights that it goes on with.
-- A scheduler's thread runs beside `main`, which only reads the height of a task again and again;
-- these readings are the argument `readings`.
pub mod System
pub mod Await
pub mod Laws
pub mod Follow
pub mod Threads
pub mod Beginning
pub mod Watch
pub mod Program
pub mod Restart
pub mod Live
use fidinventor.Base.{
  ℕ, Bool, true, false, not, Option, none, some, List, [], ◌∷◌, ◌==◌, if◌then◌else◌, ℤ, pos, negsuc,
  ◌+ℤ◌, ltb_ℤ, eq_ℤ,
}
use fidinventor.Base.Text.{Bytes}
use fidinventor.Base.Dict.{Dict}
use fidinventor.Base.Result.{Result, ok, ◌>>=◌}
use fidinventor.Args.{i64tostr}
use fidinventor.Config.{Section, parse_fidconfig}
use fidinventor.Db.Session.{Server, Session, init_db, query_block_count}
use fidinventor.Task.Types.{TaskType, task_blockgensis, task_block_or_trans}
use fidinventor.Task.Schedule.{Registry, register_task}

-- `initConfig(argc, argv)` for the file that `argv[1]` names.
unfoldable pub init_config : ℕ → Result (List Section) → Dict Bytes → Result (ℤ × Dict Bytes)
unfolding parse_fidconfig
init_config argc file args = if argc == 2 then parse_fidconfig file args else ok (negsuc 0, args)

-- The loop that waits until the height of a task is set: the first such reading.
unfoldable pub await_height : List ℤ → Option ℤ
await_height [] = none
await_height (h ∷ readings) =
    let later = await_height readings in if eq_ℤ h (negsuc 0) then later else some h

-- What `initGensisBlock` leaves: its result, the global `height`, the session, and the registry of
-- `pTaskSchedInit`.
pub record Started (F : Type 0) : Type 0 where
  pub code : ℤ
  pub height : ℤ
  pub session : Session F
  pub registry : Registry

-- The scheduler that `initGensisBlock` starts, with its one task for the number of blocks that the
-- database has; only the counter is shared.
unfoldable pub start_gensis : ℤ → ℤ → Registry → ℤ × Registry
unfolding register_task i64tostr
start_gensis storage count r =
    register_task storage task_blockgensis (i64tostr count) (record r { tasks = [] })

module _ {F : Type 0} (server : Server F) (args : Dict Bytes) where
  -- The part for a database with no blocks: the genesis task runs once, and gives the height.
  unfoldable pub init_by_task : ℤ → List ℤ → ℤ → Session F → Registry → Option (Started F)
  unfolding await_height start_gensis
  init_by_task storage readings count s r = elim (await_height readings) [
    | none ↦ none
    | some h ↦ some (record {
      code = pos 0;
      height = h +ℤ pos 1;
      session = s;
      registry = (start_gensis storage count r).1;
    })
  ]

  -- The height behind the blocks of the database, or else what the genesis task gives.
  unfoldable pub by_count : ℤ → List ℤ → Session F → Registry → ℤ → Option (Started F)
  unfolding init_by_task
  by_count storage readings s r count =
      if ltb_ℤ (pos 0) count
      then some
          (record { code = count +ℤ pos 1; height = count +ℤ pos 1; session = s; registry = r })
      else init_by_task storage readings count s r

  -- `initGensisBlock()`; none stands for a wait that goes on behind the readings. A login or a query
  -- that fails throws.
  unfoldable pub init_gensis_block : ℤ → List ℤ → Session F → Registry → Result (Option (Started F))
  unfolding init_db query_block_count by_count
  init_gensis_block storage readings s r = do
    code ← (init_db server args s).0
    count ← query_block_count server (init_db server args s).1
    ok (by_count storage readings (init_db server args s).1 r count)

-- The scheduler that `main` starts, with its one task; only the counter is shared.
unfoldable pub start_scheduler : ℤ → ℤ → Registry → ℤ × Registry
unfolding register_task i64tostr
start_scheduler storage height r =
    register_task storage task_block_or_trans (i64tostr height) (record r { tasks = [] })

-- The global `height` in the loop of `main`, behind each reading that is set.
unfoldable pub follow : ℤ → List ℤ → ℤ
follow height [] = height
follow height (h ∷ readings) =
    if eq_ℤ h (negsuc 0) then follow height readings else follow h readings

-- What `main` holds once the scheduler of its loop runs: the map of the arguments, the number of its
-- task, the global `height`, the session, and the registry of `pTaskSched`.
pub record Begun (F : Type 0) : Type 0 where
  pub args : Dict Bytes
  pub seq : ℤ
  pub height : ℤ
  pub session : Session F
  pub registry : Registry

-- How `main` begins: it exits, or still waits for the genesis task, or goes on to its loop.
pub data Outset (F : Type 0) : Type 0 where
  exits : ℤ → Outset F
  waits : Outset F
  goes_on : Begun F → Outset F

-- The scheduler behind `initGensisBlock`; its -1 stands for a failed allocation and is not read.
unfoldable pub begin_scheduler : {F : Type 0} → ℤ → Dict Bytes → Option (Started F) → Outset F
unfolding start_scheduler
begin_scheduler storage args none = waits
begin_scheduler storage args (some st) =
    let (seq, registry) = start_scheduler storage st.height st.registry in
    goes_on (record {
      args = args;
      seq = seq;
      height = st.height;
      session = st.session;
      registry = registry;
    })

-- `main` up to its loop.
unfoldable pub begin_main :
    {F : Type 0}
    → Server F
    → ℤ
    → ℕ
    → Result (List Section)
    → List ℤ
    → Dict Bytes
    → Session F
    → Registry
    → Result (Outset F)
unfolding init_config init_gensis_block begin_scheduler
begin_main server storage argc file readings args s r = do
  (code, args') ← init_config argc file args
  if eq_ℤ code (negsuc 0) then ok (exits (pos 1)) else (do
    started ← init_gensis_block server args' storage readings s r
    ok (begin_scheduler storage args' started))
