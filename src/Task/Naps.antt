-- ===== src/Task/Naps.antt =====
-- The time that a scheduler sleeps, where the last two block times are known.
use native.Mathlib.Nat.{mod-eq_of_lt}
use fidinventor.Base.{
  ℕ, ◌-◌, ◌^◌, to_int32, ◌*◌, ◌≤◌, ◌<◌, ◌≡◌, Bool, true, false, not, ◌&&◌, ◌||◌, pos, negsuc,
  pos_part, ltb, leb, ltb_ℤ, eq_ℤ, ◌-ℤ◌, if◌then◌else◌, arith, refl, List, ℤ, sym, ap, ◌∙◌, inl,
  inr, Bool-cases,
}
use fidinventor.Base.Result.{Result, ok}
use fidinventor.Task.Types.{Task}
use fidinventor.Task.Schedule.{Loop, next_loop, slept, after_tasks}
use fidinventor.Task.Pause.{adjusttime, block_interval, scaled, adjusted, pause}

-- The time between two blocks; 64 where the later one has the earlier time.
abbrev pub seconds_between : ℕ → ℕ → ℕ
seconds_between last previous = if ltb last previous then 64 else last - previous

-- Four fifths of a number of seconds, in milliseconds.
scaled_lem : (n : ℕ) → n ≤ 500000 → scaled n ≡ ok (pos (800 * n))
unfolding scaled
scaled_lem n h = ground arith

interval_lem :
    (last previous : ℕ)
    → block_interval (pos last) (pos previous) ≡ pos (seconds_between last previous)
unfolding block_interval
interval_lem last previous = ground arith

-- Both tests before the scaling, for a time `e` since the last block.
abbrev is_late : ℕ → ℕ → Bool
is_late n e = ltb_ℤ (pos n -ℤ pos e) (pos 0) || ltb_ℤ (pos n) (pos n -ℤ pos e)

is_late_lem : (n e : ℕ) → is_late n e ≡ not (leb e n)
is_late_lem n e = ground arith

back_lem : (n e : ℕ) → leb e n ≡ true → pos_part (pos n -ℤ (pos n -ℤ pos e)) ≡ e
back_lem n e h = ground arith

int_of_pos : (m : ℕ) → m < 2 ^ 31 → to_int32 (pos m) ≡ pos m
int_of_pos m h = rw (mod-eq_of_lt {n = m} {m = 2 ^ 32} (omega arith)) (ground arith)

int_of_negsuc : (m : ℕ) → m < 2 ^ 31 → to_int32 (negsuc m) ≡ negsuc m
int_of_negsuc m h = rw (mod-eq_of_lt {n = m} {m = 2 ^ 32} (omega arith)) (ground arith)

minus_le : (n e : ℕ) → leb e n ≡ true → pos n -ℤ pos e ≡ pos (n - e)
minus_le n e l = ground arith

minus_gt : (n e : ℕ) → leb e n ≡ false → pos n -ℤ pos e ≡ negsuc (e - n - 1)
minus_gt n e l = ground arith

-- The difference is an `int` without a change.
diff_lem : (n e : ℕ) → n ≤ 500000 → e < 2 ^ 31 → to_int32 (pos n -ℤ pos e) ≡ pos n -ℤ pos e
diff_lem n e h k = elim (Bool-cases (leb e n)) [
  | inl l ↦ rw (minus_le n e l) (int_of_pos (n - e) (omega arith))
  | inr l ↦ rw (minus_gt n e l) (int_of_negsuc (e - n - 1) (omega arith))
]

adjusted_lem :
    (n e : ℕ)
    → n ≤ 500000
    → e < 2 ^ 31
    → adjusted (pos n) (pos e) ≡ ok (pos (if leb e n then 800 * e else 1000))
unfolding adjusted
adjusted_lem n e h k =
    ap
      (λ d.
        if ltb_ℤ d (pos 0) || ltb_ℤ (pos n) d
        then ok adjusttime
        else scaled (pos_part (pos n -ℤ d)))
      (diff_lem n e h k)
    ∙ ap (λ b. if b then ok adjusttime else scaled (pos_part (pos n -ℤ (pos n -ℤ pos e))))
        (is_late_lem n e)
    ∙ elim (Bool-cases (leb e n)) [
      | inl l ↦
          ap (λ b. if not b then ok adjusttime else scaled (pos_part (pos n -ℤ (pos n -ℤ pos e)))) l
          ∙ ap scaled (back_lem n e l)
          ∙ scaled_lem e (ground arith)
          ∙ sym (ap (λ b. ok (pos (if b then 800 * e else 1000))) l)
      | inr l ↦
          ap (λ b. if not b then ok adjusttime else scaled (pos_part (pos n -ℤ (pos n -ℤ pos e)))) l
          ∙ sym (ap (λ b. ok (pos (if b then 800 * e else 1000))) l)
    ]

are_known :
    (a b : ℕ) → 0 < a → 0 < b → (not (eq_ℤ (pos a) (pos 0)) && not (eq_ℤ (pos b) (pos 0))) ≡ true
are_known a b ha hb = ground arith

-- The same, for `diff`.
pause_lem :
    (last previous elapsed : ℕ)
    → 0 < last
    → 0 < previous
    → seconds_between last previous ≤ 500000
    → elapsed < 2 ^ 31
    → pause (pos last) (pos previous) (pos elapsed)
      ≡ ok (pos (if leb elapsed (seconds_between last previous) then 800 * elapsed else 1000))
unfolding pause
pause_lem last previous elapsed hl hp h k =
    ap
      (λ b.
        if b
        then adjusted (block_interval (pos last) (pos previous)) (pos elapsed)
        else ok adjusttime)
      (are_known last previous hl hp)
    ∙ ap (λ i. adjusted i (pos elapsed)) (interval_lem last previous)
    ∙ adjusted_lem (seconds_between last previous) elapsed h k

-- A round of a scheduler behind its tasks. Where the last round that stored a block and this one have
-- the block times `previous` and `last`, which are known and lie at most 500000 seconds apart, and the
-- seconds since the last block was seen are below 2 ^ 31: the scheduler sleeps one second where a task
-- is to be called again at once, since it waits for its block; and otherwise four fifths of these
-- seconds, or one second where they are more than the time between the two blocks. The next round has
-- the tasks of this one, and counts from its block time and clock.
pub after_tasks_lem :
    (last previous elapsed : ℕ) (t2 t1 before : ℤ) (tasks done : List Task) (go_on : Bool)
    → 0 < last
    → 0 < previous
    → seconds_between last previous ≤ 500000
    → elapsed < 2 ^ 31
    → t2 -ℤ before ≡ pos elapsed
    → after_tasks t2 t1
        (record { tasks = tasks; bktime = pos previous; t1 = before })
        (record { tasks = done; bktimelast = pos last; go_on = go_on })
      ≡ ok (
        record { tasks = done; bktime = pos last; t1 = t1 },
        pos (
            if go_on
            then 1000
            else if leb elapsed (seconds_between last previous)
            then 800 * elapsed
            else 1000),
      )
unfolding after_tasks
after_tasks_lem last previous elapsed t2 t1 before tasks done go_on hl hp h k since =
    let known : eq_ℤ (pos last) (pos 0) ≡ false = ground (arith, hl) in
    ap
      (λ d.
        slept
          (next_loop t1 (record { tasks = tasks; bktime = pos previous; t1 = before })
            (record { tasks = done; bktimelast = pos last; go_on = go_on }))
          go_on d)
      (ap (pause (pos last) (pos previous)) since ∙ pause_lem last previous elapsed hl hp h k)
    ∙ ap
        (λ b. ok (
          (if not b
              then record { tasks = done; bktime = pos last; t1 = t1 }
              else record { tasks = done; bktime = pos previous; t1 = before }),
          (if go_on
              then adjusttime
              else pos
                  (if leb elapsed (seconds_between last previous) then 800 * elapsed else 1000)),
        ))
        known
    ∙ by_flag go_on
  where
    by_flag :
        (b : Bool)
        → ◌≡◌ {A = Result (Loop × ℤ)}
            (ok (
              record { tasks = done; bktime = pos last; t1 = t1 },
              (if b
                  then adjusttime
                  else pos (
                      if leb elapsed (seconds_between last previous) then 800 * elapsed else 1000)),
            ))
            (ok (
              record { tasks = done; bktime = pos last; t1 = t1 },
              pos (
                  if b
                  then 1000
                  else if leb elapsed (seconds_between last previous)
                  then 800 * elapsed
                  else 1000),
            ))
    by_flag true = refl
    by_flag false = refl
