-- ===== src/Main/Restart.antt =====
-- The program from its start on, with blocks in the database: what its scheduler then stores.
use fidinventor.Base.{ℕ, ◌+◌, ◌<◌, ◌^◌, ◌≡◌, ap, sym, ◌∙◌, false, List, arith, ℤ, pos}
use fidinventor.Base.Text.{Bytes}
use fidinventor.Base.Dict.{Dict}
use fidinventor.Base.Result.{Result, ok}
use fidinventor.Config.{Section}
use fidinventor.Db.Session.{Session, init_db, query_block_count}
use fidinventor.Db.Laws.{NeverFails, sending}
use fidinventor.Handler.World.{Call, Env}
use fidinventor.Task.Schedule.{Registry, get_task}
use fidinventor.Task.Gensis.{Fetched, rows_of}
use fidinventor.Task.Follow.{HasSmallCounts, FollowedFrom}
use fidinventor.Main.{Started, Begun, goes_on, begin_main}
use fidinventor.Main.System.{System, Reach, follow_look, started}
use fidinventor.Main.Follow.{chain_in_order}
use fidinventor.Main.Laws.{by_count-some}
use fidinventor.Main.Beginning.{
  some-injective, begin_main-begun, init_gensis_block-ok, follows_from,
}

module _ (env : Env) (good : NeverFails (Env.server env)) (small : HasSmallCounts env)
    (storage : ℤ) where
  open env use {floats.{Float}, date_text}

  -- The state of the program whose scheduler has just been started.
  abbrev pub at_loop : List (Call Float) → Begun Float → System Float ℤ
  at_loop calls b =
      started (get_task storage b.seq b.registry.tasks)
        (record { calls = calls; session = b.session }) b.height

  -- A program whose database has `n` blocks when it starts, `n` being positive, with a database that
  -- does not fail from then on and a node that counts less than 2^31 - 1 blocks: where it comes to its
  -- loop, it goes on with height `n + 1`, over an open connection, and whatever the order of the steps
  -- of its two threads, what its scheduler sends are the rows of the blocks that it reads for the
  -- heights `n + 1`, `n + 2` and so on. So the block of height `n` is not among them.
  pub restart_leaves_gap :
      (argc : ℕ) (file : Result (List Section)) (readings : List ℤ) (args : Dict Bytes)
      (s : Session Float) (r : Registry) (earlier : List (Call Float)) {b : Begun Float}
      {u : System Float ℤ} (n : ℕ)
      → 0 < n
      → n + 1 < 2 ^ 31
      → begin_main env.server storage argc file readings args s r ≡ ok (goes_on b)
      → query_block_count env.server (init_db env.server b.args s).1 ≡ ok (pos n)
      → Reach env false storage b.seq follow_look (at_loop earlier b) u
      → (b.height ≡ pos (n + 1))
        × (fetched : List (Fetched Float)) × FollowedFrom env (n + 1) fetched
        × (u.world.session ≡ sending (init_db env.server b.args s).1 (rows_of date_text fetched))
  restart_leaves_gap argc file readings args s r earlier {b} {u} n some_block fits h count q =
      let (st, init, e) = begin_main-begun env.server storage argc file readings args s r h in
      let (opened, counted) =
        init_gensis_block-ok env.server b.args storage readings s r count init in
      let same = some-injective (
        sym counted
        ∙ by_count-some env b.args storage readings (init_db env.server b.args s).1 r n
            some_block) in
      let height = ap (λ (x : Started Float). x.height) same in
      let session =
        ap (λ (c : Begun Float). c.session) e ∙ ap (λ (x : Started Float). x.session) same in
      let (fetched, followed, _) =
        chain_in_order env good small storage st.registry.sequence (n + 1) (omega arith)
          (record { calls = earlier; session = b.session })
          (ap (λ (x : Session Float). x.inited) session ∙ opened) fits
          (follows_from env storage b.args st e height q) in
      (
        ap (λ (c : Begun Float). c.height) e ∙ height,
        fetched,
        followed.each,
        followed.rows_sent
            ∙ ap (λ (x : Session Float). sending x (rows_of date_text fetched)) session,
      )
