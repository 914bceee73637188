-- ===== src/Task/Pause.antt =====
-- How long `CFidTaskSchedule::work` sleeps between two rounds.
use fidinventor.Base.{
  ℕ, ◌*◌, ◌/◌, ◌^◌, not, ◌&&◌, ◌||◌, ℤ, pos, pos_part, to_int32, ltb, ltb_ℤ, eq_ℤ, ◌-ℤ◌,
  if◌then◌else◌,
}
use fidinventor.Base.Result.{Result, ok, undefined}

-- `adjusttime`, in milliseconds.
abbrev pub adjusttime : ℤ
adjusttime = pos 1000

-- `bkdiff`, the time between two blocks.
unfoldable pub block_interval : ℤ → ℤ → ℤ
block_interval last previous = if ltb_ℤ (last -ℤ previous) (pos 0) then pos 64 else last -ℤ previous

-- `n * 1000 * 4/5` for a number of seconds from 0 on; where `n * 1000 * 4` leaves the range of `int`
-- the result is undefined.
unfoldable pub scaled : ℕ → Result ℤ
scaled n = if ltb (n * 1000 * 4) (2 ^ 31) then ok (pos (n * 1000 * 4 / 5)) else undefined

-- `diff` where both block times are known; `elapsed` is `t2-t1`.
unfoldable pub adjusted : ℤ → ℤ → Result ℤ
unfolding scaled
adjusted interval elapsed =
    let diff = to_int32 (interval -ℤ elapsed) in
    if ltb_ℤ diff (pos 0) || ltb_ℤ interval diff
    then ok adjusttime
    else scaled (pos_part (interval -ℤ diff))

-- `diff`
unfoldable pub pause : ℤ → ℤ → ℤ → Result ℤ
unfolding block_interval adjusted
pause last previous elapsed =
    if not (eq_ℤ last (pos 0)) && not (eq_ℤ previous (pos 0))
    then adjusted (block_interval last previous) elapsed
    else ok adjusttime
