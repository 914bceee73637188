-- ===== src/Main/Program.antt =====
-- The program from an empty database on: the genesis task, and then the scheduler that follows.
use fidinventor.Base.{
  ℕ, suc, refl, [], ◌+◌, ◌-◌, ◌<◌, ◌^◌, ◌≡◌, ap, sym, ◌∙◌, ◌⊎◌, inl, inr, true, false, Option, none,
  some, List, ◌++◌, append_assoc, length, arith, ℤ, pos, negsuc, ◌+ℤ◌, to_int32, leb_ℤ, ltb_ℤ,
}
use fidinventor.Base.Text.{Bytes, strtoll}
use fidinventor.Base.Decimal.{strtoll-decimal_ℤ}
use fidinventor.Base.Result.{Result, ok}
use fidinventor.Args.{i64tostr}
use fidinventor.Base.Dict.{Dict}
use fidinventor.Config.{Section}
use fidinventor.Db.Session.{Server, Session, init_db, query_block_count}
use fidinventor.Db.Laws.{NeverFails, sending}
use fidinventor.Handler.World.{Call, Env, World}
use fidinventor.Handler.Fetch.{Handler, get_block_count}
use fidinventor.Handler.Store.{new_handler}
use fidinventor.Task.Types.{task_blockgensis}
use fidinventor.Task.Run.{rounds_to}
use fidinventor.Task.Registry.{registered, register_task-get_task}
use fidinventor.Task.Schedule.{Registry, get_task, start_round}
use fidinventor.Thread.{run}
use fidinventor.Task.Gensis.{CountOf, Fetched, FetchedFrom, rows_of}
use fidinventor.Task.Follow.{HasSmallCounts, FollowedFrom, to_int32-pos, next_pos}
use fidinventor.Main.System.{System, Reach, note_look, follow_look, started}
use fidinventor.Main.Await.{awaited-stored}
use fidinventor.Main.{
  Started, Begun, goes_on, await_height, start_gensis, by_count, init_by_task, begin_main,
}
use fidinventor.Main.Beginning.{
  some-injective, begin_main-begun, init_gensis_block-ok, follows_from,
}
use fidinventor.Main.Watch.{awaited, Reach-watching}
use mathlib.Core.Path.{subst}
use fidinventor.Main.Follow.{chain_in_order}

-- A number of blocks is not negative.
abbrev pub HasCounts : Env → Type 0
HasCounts env =
    (hand hand' : Handler _) (w w' : World _) (count : ℤ)
    → get_block_count env hand w ≡ (ok (count, hand'), w')
    → leb_ℤ (pos 0) count ≡ true

-- A height from 0 on whose successor is an `int`: the number of rounds up to it, and the height behind.
rounds_before :
    (env : Env) (wanted height : ℤ)
    → leb_ℤ (pos 0) wanted ≡ true
    → ltb_ℤ wanted (pos (2 ^ 31 - 1)) ≡ true
    → height ≡ to_int32 wanted
    → (n : ℕ) × (0 < n) × (n < 2 ^ 31) × (rounds_to env wanted ≡ n) × (height +ℤ pos 1 ≡ pos n)
rounds_before env (pos k) height low high e =
    let room : k + 1 < 2 ^ 31 = ground arith in
    (
      suc k,
      omega arith,
      omega (arith, room),
      refl,
      ap (λ (x : ℤ). x +ℤ pos 1) (e ∙ to_int32-pos k (omega (arith, room)))
          ∙ next_pos k
          ∙ ap pos (omega arith),
    )
rounds_before env (negsuc k) height low high e = absurd (ground arith)

-- Without blocks in the database, what the initialisation leaves comes from what it has read.
by_count-none :
    {F : Type 0} (server : Server F) (args : Dict Bytes) (storage : ℤ) (readings : List ℤ)
    (s : Session F) (r : Registry) {st : Started F}
    → by_count server args storage readings s r (pos 0) ≡ some st
    → (h : ℤ) × (await_height readings ≡ some h) × (st.height ≡ h +ℤ pos 1) × (st.session ≡ s)
unfolding by_count init_by_task
by_count-none {F} server args storage readings s r {st} e = by_reading (await_height readings) e
  where
    by_reading :
        (o : Option ℤ)
        → (elim o as (λ _. Option (Started F)) [
          | none ↦ none
          | some h ↦ some (record {
            code = pos 0;
            height = h +ℤ pos 1;
            session = s;
            registry = (start_gensis storage (pos 0) r).1;
          })
        ])
          ≡ some st
        → (h : ℤ) × (o ≡ some h) × (st.height ≡ h +ℤ pos 1) × (st.session ≡ s)
    by_reading none e = absurd (cc)
    by_reading (some h) e =
        let same = some-injective (sym e) in
        (h, refl, ap (λ (x : Started F). x.height) same, ap (λ (x : Started F). x.session) same)

module _ (env : Env) (good : NeverFails (Env.server env)) (small : HasSmallCounts env)
    (counts : HasCounts env) (storage : ℤ) where
  open env use {floats.{Float}, date_text}

  -- The command that `initGensisBlock` gives its task where the database has no block.
  zero_command : strtoll (i64tostr (pos 0)) ≡ pos 0
  unfolding i64tostr
  zero_command = strtoll-decimal_ℤ (pos 0) (omega arith)

  wanted_bounds :
      (w : World Float) (wanted : ℤ)
      → (wanted ≡ strtoll (i64tostr (pos 0)))
        ⊎ ((leb_ℤ (strtoll (i64tostr (pos 0))) (pos 0) ≡ true) × CountOf env w wanted)
      → (leb_ℤ (pos 0) wanted ≡ true) × (ltb_ℤ wanted (pos (2 ^ 31 - 1)) ≡ true)
  wanted_bounds w wanted (inl e) =
      let is_zero = e ∙ zero_command in
      (ap (leb_ℤ (pos 0)) is_zero, ap (λ x. ltb_ℤ x (pos (2 ^ 31 - 1))) is_zero)
  wanted_bounds w wanted (inr (_, (hand, w₁, e))) =
      (counts (new_handler env) hand w w₁ wanted e, small (new_handler env) hand w w₁ wanted e)

  -- The state of the program that has just started the thread of `initGensisBlock`, whose scheduler has
  -- the task for `count` blocks.
  abbrev pub at_gensis : World Float → ℤ → Registry → System Float (List ℤ)
  at_gensis w count r =
      started
        (get_task storage (start_gensis storage count r).0 (start_gensis storage count r).1.tasks) w
        []

  gensis_from :
      (w : World Float) (r : Registry) {s : System Float (List ℤ)}
      → Reach env true storage
          (start_gensis storage (pos 0) r).0
          note_look
          (at_gensis w (pos 0) r)
          s
      → Reach env true storage r.sequence note_look
          (started (registered storage task_blockgensis (i64tostr (pos 0)) r.sequence) w [])
          s
  unfolding start_gensis
  gensis_from w r {s} q =
      let (_, _, found) =
        register_task-get_task storage storage task_blockgensis (i64tostr (pos 0))
          (record r { tasks = [] }) tt in
      subst (λ t. Reach env true storage r.sequence note_look (started t w []) s) found q

  -- The program from its start on, with an empty database that does not fail behind the login, and a
  -- node whose counts are natural numbers below 2^31 - 1. The thread of `initGensisBlock` and its loop
  -- make their steps in any order, and with the heights that the loop has read `main` goes on; then the
  -- thread of its scheduler and its loop make their steps in any order. It goes on with some height `n`,
  -- and what was sent are, one after the other, the rows of the blocks that were read for the heights
  -- 0 to n - 1 by the genesis task, and for `n`, n + 1 and so on by the scheduler: one block for each
  -- height, and no height passed over between the two. A block has a row
  -- only where the reply to the call for its height gave it a hash, and a transaction only where it has
  -- an id: at a height whose reply was an error, nothing is sent for the block.
  pub program_in_order :
      (argc : ℕ) (file : Result (List Section)) (args : Dict Bytes) (session : Session Float)
      (r : Registry) (earlier : List (Call Float)) {s : System Float (List ℤ)} {b : Begun Float}
      {u : System Float ℤ}
      → query_block_count env.server (init_db env.server b.args session).1 ≡ ok (pos 0)
      → Reach env true storage
          (start_gensis storage (pos 0) r).0
          note_look
          (at_gensis
            (record { calls = earlier; session = (init_db env.server b.args session).1 })
            (pos 0)
            r)
          s
      → begin_main env.server storage argc file s.seen args session r ≡ ok (goes_on b)
      → Reach env false storage b.seq follow_look
          (started (get_task storage b.seq b.registry.tasks) s.world b.height)
          u
      → (n : ℕ) × (b.height ≡ pos n)
        × (first later : List (Fetched Float)) × (length first ≡ n)
        × FetchedFrom env 0 first
        × FollowedFrom env n later
        × (u.world.session
            ≡ sending
                (init_db env.server b.args session).1
                (rows_of date_text first ++ rows_of date_text later))
  unfolding run start_round await_height
  program_in_order argc file args session r earlier {s} {b} {u} empty gensis begin q =
      let w : World Float = record {
        calls = earlier;
        session = (init_db env.server b.args session).1;
      } in
      let (st, init, e) =
        begin_main-begun env.server storage argc file s.seen args session r begin in
      let (opened, counted) =
        init_gensis_block-ok env.server b.args storage s.seen session r empty init in
      let (h, read, at, _) =
        by_count-none env.server b.args storage s.seen (init_db env.server b.args session).1 r
          counted in
      let (height, same, stored) =
        awaited-stored env good storage r.sequence (i64tostr (pos 0)) {n = h +ℤ pos 1} w opened
          (Reach-watching env storage r.sequence (gensis_from w r gensis)) (ap awaited read) in
      let (low, high) = wanted_bounds w stored.wanted stored.at_command in
      let (n, positive, fits, rounds, next_height) =
        rounds_before env stored.wanted height low high stored.reported in
      let goes_on_at = at ∙ sym same ∙ next_height in
      let still_open = ap (λ (x : Session Float). x.inited) stored.rows_sent ∙ opened in
      let (later, followed, _) =
        chain_in_order env good small storage st.registry.sequence n positive s.world still_open
          fits (follows_from env storage b.args st e goes_on_at q) in
      (
        n,
        ap (λ (c : Begun Float). c.height) e ∙ goes_on_at,
        stored.fetched,
        later,
        stored.count ∙ rounds,
        stored.each,
        followed.each,
        followed.rows_sent
            ∙ ap (λ (x : Session Float). sending x (rows_of date_text later)) stored.rows_sent
            ∙ ap (λ l. record (init_db env.server b.args session).1 { sent = l })
                (append_assoc (init_db env.server b.args session).1.sent _ _),
      )
