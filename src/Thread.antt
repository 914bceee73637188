-- ===== src/Thread.antt =====
-- `Thread` and `deleteThreadSafe` of src/thread.h. The thread of boost is where it stands: it was
-- created, it is in `work()`, or it has ended. An object is run once.
use fidinventor.Base.{zero, Bool, true, false, Option, none, some, ℤ, pos, if◌then◌else◌}
use fidinventor.Base.Result.{Result, ok, undefined, ◌>>=◌}

-- Where the thread stands that `m_thread` points to.
pub data Phase : Type 0 where
  created working finished : Phase

-- `m_thread`, none for NULL, and `running`.
pub record Thread : Type 0 where
  pub m_thread : Option Phase
  pub running : ℤ

-- `Thread()`
abbrev pub new_thread : Thread
new_thread = record { m_thread = none; running = pos 0 }

-- `run()`
unfoldable pub run : Thread → Thread
run thread = record thread { m_thread = some created }

-- `doWork()` up to the call of `work()`.
unfoldable pub do_work : Thread → Thread
do_work thread = record { m_thread = some working; running = pos 1 }

-- `work()` returns, and with it the thread ends.
unfoldable pub end_work : Thread → Thread
end_work thread = record thread { m_thread = some finished }

-- `working()`
abbrev pub is_working : Thread → ℤ
is_working thread = thread.running

-- `catchUp()`: whether it returns at once, or waits for the thread to end.
unfoldable pub catch_up : Thread → Bool
catch_up thread = elim thread.m_thread [
  | none ↦ true
  | some created ↦ false
  | some working ↦ false
  | some finished ↦ true
]

-- A test of an `int`.
abbrev is_set : ℤ → Bool
is_set (pos zero) = false
is_set n = true

-- `delete thd` for a scheduler: its list of tasks is destroyed before `~Thread()` joins the thread, so
-- this has no meaning as long as the thread is there, which uses the list.
unfoldable pub destroy : Thread → Result (Unit {0})
unfolding catch_up
destroy thread = if catch_up thread then ok tt else undefined

-- `deleteThreadSafe(thd)` for a scheduler.
unfoldable pub delete_thread_safe : Option Thread → Result ℤ
unfolding destroy
delete_thread_safe none = ok (pos 0)
delete_thread_safe (some thread) =
    if is_set (is_working thread) then (destroy thread >>= λ _. ok (pos 1)) else ok (pos 0)
