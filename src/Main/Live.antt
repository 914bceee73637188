-- ===== src/Main/Live.antt =====
-- That the program goes on: a block that the node has is stored.
use fidinventor.Base.{
  ℕ, zero, suc, ◌+◌, ◌<◌, ◌^◌, ◌≡◌, refl, ap, sym, ◌∙◌, ◌⊎◌, inl, inr, true, false, some, List, [],
  ◌∷◌, ◌++◌, append-nil, length, arith, ℤ, pos,
}
use fidinventor.Args.{i64tostr}
use fidinventor.Chain.Block.{new_block}
use fidinventor.Db.Session.{Session}
use fidinventor.Db.Laws.{NeverFails, sending}
use fidinventor.Handler.World.{Env, World}
use fidinventor.Handler.Reads.{BlockOf, EachTx}
use fidinventor.Task.Types.{Task, task_block_or_trans}
use fidinventor.Task.Registry.{registered, get_task-one}
use fidinventor.Task.Run.{task_height}
use fidinventor.Task.Schedule.{start_round, note_task, get_task}
use fidinventor.Task.Rounds.{put_back, note_task-appends}
use fidinventor.Task.Gensis.{Fetched, rows_of}
use fidinventor.Task.Follow.{HasSmallCounts, follower, Followed, set_height}
use fidinventor.Task.Stores.{AnswersAt, call-stores}
use fidinventor.Thread.{created, working, run, do_work}
use fidinventor.Main.System.{
  System, Step, Reach, begins, calls, repeats, ends, looks, here, next, follow_look, started,
}
use fidinventor.Main.Follow.{InList, InList-listed, reached}
use fidinventor.Main.Threads.{Reach-trans}

module _ (env : Env) (good : NeverFails (Env.server env)) (small : HasSmallCounts env)
    (storage seq : ℤ) (n : ℕ) (positive : 0 < n) where
  open env use {floats.{Float}, date_text}

  abbrev IsListed : Task → System Float ℤ → Type 0
  IsListed = InList env good small storage seq n positive

  -- The task of the list is what `getTask` finds.
  at_task :
      (s : System Float ℤ) (t : Task)
      → IsListed t s
      → get_task storage seq (s.round.tasks ++ s.ahead) ≡ t
  at_task s t in_list =
      ap (get_task storage seq) (InList-listed env good small storage seq n positive t s in_list)
      ∙ get_task-one storage seq t

  -- A scheduler that goes on has a thread that does not end.
  abbrev IsAlive : System Float ℤ → Type 0
  IsAlive s = (s.thread.m_thread ≡ some created) ⊎ (s.thread.m_thread ≡ some working)

  Step-IsAlive :
      {s s' : System Float ℤ} → IsAlive s → Step env false storage seq follow_look s s' → IsAlive s'
  unfolding do_work
  Step-IsAlive {s} a (begins _ e) = rw e (inr refl)
  Step-IsAlive {s} a (calls _ _ _ _ _ _ _ e) = rw e a
  Step-IsAlive {s} a (repeats _ _ _ e) = rw e a
  Step-IsAlive {s} a (ends _ _ o e) = absurd (cc)
  Step-IsAlive {s} a (looks e) = rw e a

  alive :
      (task : Task) (w : World Float) (seen : ℤ) {s : System Float ℤ}
      → Reach env false storage seq follow_look (started task w seen) s
      → IsAlive s
  unfolding run
  alive task w seen here = inl refl
  alive task w seen (next r step) = Step-IsAlive (alive task w seen r) step

  -- A state that is reached with the task ahead, and with nothing sent on the way.
  record Ready (t : Task) (s : System Float ℤ) : Type 0 where
    state : System Float ℤ
    steps : Reach env false storage seq follow_look s state
    at_work : state.thread.m_thread ≡ some working
    none_done : state.round.tasks ≡ []
    one_ahead : state.ahead ≡ t ∷ []
    same_world : state.world ≡ s.world

  working-Ready :
      (t : Task) (s : System Float ℤ) → s.thread.m_thread ≡ some working → IsListed t s → Ready t s
  unfolding start_round
  working-Ready t s m (inl (none_done, one_ahead)) = record {
    state = s;
    steps = here;
    at_work = m;
    none_done = none_done;
    one_ahead = one_ahead;
    same_world = refl;
  }
  working-Ready t s m (inr (one_done, none_ahead)) = record {
    state = record s { round = start_round; ahead = s.round.tasks };
    steps = next here (repeats m none_ahead refl refl);
    at_work = m;
    none_done = refl;
    one_ahead = one_done;
    same_world = refl;
  }

  alive-Ready : (t : Task) (s : System Float ℤ) → IsAlive s → IsListed t s → Ready t s
  unfolding do_work
  alive-Ready t s (inr m) in_list = working-Ready t s m in_list
  alive-Ready t s (inl m) in_list =
      let r = working-Ready t (record s { thread = do_work s.thread }) refl in_list in
      record {
        state = r.state;
        steps = Reach-trans env false storage seq follow_look (next here (begins m refl)) r.steps;
        at_work = r.at_work;
        none_done = r.none_done;
        one_ahead = r.one_ahead;
        same_world = r.same_world;
      }

  -- The steps from a state with the task ahead: its call returns, and the block is stored.
  Ready-stores :
      (s : System Float ℤ) (height : ℤ) (m : ℕ)
      → 0 < m
      → m < 2 ^ 31
      → s.world.session.inited ≡ true
      → task_height env (follower storage seq n height) ≡ pos m
      → AnswersAt env m
      → Ready (follower storage seq n height) s
      → (s' : System Float ℤ) × Reach env false storage seq follow_look s s'
        × (f : Fetched Float) × BlockOf env (pos m) (new_block env.block_storage) f.block f.ids
        × EachTx env f.ids f.txs
        × (s'.world.session ≡ sending s.world.session (rows_of date_text (f ∷ [])))
        × (task_height env (get_task storage seq (s'.round.tasks ++ s'.ahead)) ≡ pos (m + 1))
  Ready-stores s height m some_height fits opened wants answers r =
      let t = follower storage seq n height in
      let is_open = ap (λ (w : World Float). w.session.inited) r.same_world ∙ opened in
      let (done, w', e, behind, f, block_read, each, sent) =
        call-stores env good m answers fits storage seq n height r.state.world some_height wants
          is_open in
      (
        record r.state { round = note_task t done r.state.round; ahead = []; world = w' },
        next r.steps (calls t done [] w' r.at_work r.one_ahead e refl),
        f,
        block_read,
        each,
        sent
            ∙ ap (λ (w : World Float). sending w.session (rows_of date_text (f ∷ []))) r.same_world,
        ap (λ l. task_height env (get_task storage seq l))
              (append-nil _
                ∙ note_task-appends t done r.state.round
                ∙ ap (λ l. l ++ record t { height = put_back done } ∷ []) r.none_done)
            ∙ ap (task_height env) (get_task-one storage seq (record t { height = put_back done }))
            ∙ ap (λ h. task_height env (record t { height = h })) behind
            ∙ set_height env t (m + 1),
      )

  -- The block that is wanted where a program has come, if the node has it, is the next that is sent.
  next_block_is_stored :
      (w : World Float) {s : System Float ℤ} (m : ℕ)
      → w.session.inited ≡ true
      → n < 2 ^ 31
      → Reach env false storage seq follow_look
          (started (registered storage task_block_or_trans (i64tostr (pos n)) seq) w (pos n))
          s
      → task_height env (get_task storage seq (s.round.tasks ++ s.ahead)) ≡ pos m
      → AnswersAt env m
      → (s' : System Float ℤ) × Reach env false storage seq follow_look s s'
        × (f : Fetched Float) × BlockOf env (pos m) (new_block env.block_storage) f.block f.ids
        × EachTx env f.ids f.txs
        × (s'.world.session ≡ sending s.world.session (rows_of date_text (f ∷ [])))
        × (task_height env (get_task storage seq (s'.round.tasks ++ s'.ahead)) ≡ pos (m + 1))
  next_block_is_stored w {s} m opened fits r wanted answers =
      let b = reached env good small storage seq n positive w opened fits r in
      let t = follower storage seq n b.height in
      let wants = ap (task_height env) (sym (at_task s t b.in_list)) ∙ wanted in
      let same : pos m ≡ pos (n + length b.fetched) = sym wants ∙ b.wants in
      let room = b.stored.fits in
      Ready-stores s b.height m (ground (arith, same, positive)) (ground (arith, same, room))
        (ap (λ (x : Session Float). x.inited) b.stored.rows_sent ∙ opened) wants answers
        (alive-Ready t s (alive _ w (pos n) r) b.in_list)

  -- The steps that store `k` blocks.
  advance :
      (w : World Float) {s : System Float ℤ} (m k : ℕ)
      → w.session.inited ≡ true
      → n < 2 ^ 31
      → Reach env false storage seq follow_look
          (started (registered storage task_block_or_trans (i64tostr (pos n)) seq) w (pos n))
          s
      → task_height env (get_task storage seq (s.round.tasks ++ s.ahead)) ≡ pos m
      → ((i : ℕ) → i < k → AnswersAt env (m + i))
      → (s' : System Float ℤ) × Reach env false storage seq follow_look s s'
        × (task_height env (get_task storage seq (s'.round.tasks ++ s'.ahead)) ≡ pos (m + k))
  advance w {s} m zero opened fits r wanted answers = (s, here, wanted ∙ ap pos (omega arith))
  advance w {s} m (suc k) opened fits r wanted answers =
      let (s₁, r₁, wanted₁) =
        advance w m k opened fits r wanted (λ i h. answers i (omega (arith, h))) in
      let (s₂, r₂, _, _, _, _, wanted₂) =
        next_block_is_stored w (m + k) opened fits
          (Reach-trans env false storage seq follow_look r r₁) wanted₁ (answers k (omega arith)) in
      (s₂, Reach-trans env false storage seq follow_look r₁ r₂, wanted₂ ∙ ap pos (omega arith))

  -- Wherever a program has come that follows the chain from a positive height `n`, over a connection
  -- that is open and does not fail, with a node that counts less than 2^31 - 1 blocks: if the task of its
  -- scheduler wants the block of height `m`, and the node has the `k` blocks from this one on, with their
  -- transactions, and answers whenever it is asked, then there are steps that store them: behind these
  -- steps, what was sent since the program began to follow are the rows of the blocks of the heights
  -- from `n` to `m + k - 1`, in order, each with its transactions as they were read out of replies.
  pub catches_up :
      (w : World Float) {s : System Float ℤ} (m k : ℕ)
      → w.session.inited ≡ true
      → n < 2 ^ 31
      → Reach env false storage seq follow_look
          (started (registered storage task_block_or_trans (i64tostr (pos n)) seq) w (pos n))
          s
      → task_height env (get_task storage seq (s.round.tasks ++ s.ahead)) ≡ pos m
      → ((i : ℕ) → i < k → AnswersAt env (m + i))
      → (s' : System Float ℤ) × Reach env false storage seq follow_look s s'
        × (fetched : List (Fetched Float)) × (n + length fetched ≡ m + k)
        × Followed env n w s'.world fetched
  catches_up w {s} m k opened fits r wanted answers =
      let (s₁, r₁, wanted₁) = advance w m k opened fits r wanted answers in
      let b =
        reached env good small storage seq n positive w opened fits
          (Reach-trans env false storage seq follow_look r r₁) in
      let t = follower storage seq n b.height in
      let same : pos (n + length b.fetched) ≡ pos (m + k) =
        sym b.wants ∙ ap (task_height env) (sym (at_task s₁ t b.in_list)) ∙ wanted₁ in
      (s₁, r₁, b.fetched, ground (arith, same), b.stored)
