-- ===== src/Main/Await.antt =====
-- Where `main` stops waiting for the genesis task.
use fidinventor.Base.{
  ◌≡◌, refl, ap, sym, ◌∙◌, ◌⊎◌, inl, inr, Bool, true, false, Option, none, some, List, [], ◌∷◌,
  ◌++◌, length, ℤ, pos, negsuc, ◌+ℤ◌, eq_ℤ, to_int32, leb_ℤ, if◌then◌else◌, head-eq, tail-eq,
}
use mathlib.Core.Path.{subst}
use fidinventor.Base.Text.{Bytes, strtoll}
use fidinventor.Base.Result.{Result, ok, ok-injective}
use fidinventor.Db.Laws.{NeverFails, sending}
use fidinventor.Handler.World.{Env, World, pure, ◌>>=◌}
use fidinventor.Handler.Store.{new_handler}
use fidinventor.Handler.Frames.{continue-ok}
use fidinventor.Task.Types.{Task, task_blockgensis, new_task}
use fidinventor.Task.Run.{wanted_height, gensis_loop, rounds_to, call_gensis, call}
use fidinventor.Task.Schedule.{Round, start_round, note_task, get_task}
use fidinventor.Task.Gensis.{CountOf, Fetched, FetchedFrom, rows_of, call_gensis-ok}
use fidinventor.Task.Registry.{registered, get_task-one}
use fidinventor.Task.Rounds.{note_task-appends}
use fidinventor.Thread.{Thread, do_work, end_work}
use fidinventor.Main.System.{
  System, started, Step, Reach, begins, calls, repeats, ends, looks, here, next, await_look,
}

module _ (env : Env) (command : Bytes) where
  open env use {floats.{Float}, date_text}

  -- What the genesis task has done at the height that it reports.
  pub record GensisStored (w w' : World Float) (height : ℤ) : Type 0 where
    pub wanted : ℤ
    pub fetched : List (Fetched Float)
    pub at_command :
        (wanted ≡ strtoll command)
        ⊎ ((leb_ℤ (strtoll command) (pos 0) ≡ true) × CountOf env w wanted)
    pub reported : height ≡ to_int32 wanted
    pub count : length fetched ≡ rounds_to env wanted
    pub each : FetchedFrom env 0 fetched
    pub rows_sent : w'.session ≡ sending w.session (rows_of date_text fetched)

module _ (env : Env) (good : NeverFails (Env.server env)) (storage seq : ℤ) (command : Bytes) where
  open env use {floats.{Float}}

  abbrev gensis : Task
  gensis = registered storage task_blockgensis command seq

  call_gensis-status :
      (task : Task) (w : World Float) {task' : Task} {w' : World Float}
      → call_gensis env task w ≡ (ok task', w')
      → task'.status ≡ task.status
  unfolding call_gensis ◌>>=◌ pure
  call_gensis-status task w h =
      let ((height, hand), w₁, e₁, h₁) =
        continue-ok (wanted_height env task.command (new_handler env) w) _ h in
      let (hand', w₂, e₂, h₂) =
        continue-ok (gensis_loop env (rounds_to env height) 0 hand w₁) _ h₁ in
      sym (
        ap (λ (t : Task). t.status) (ok-injective (ap (λ (r : Result Task × World Float). r.0) h₂)))

  -- A task that does not report status 1 comes back with its height.
  note_task-open :
      (t done : Task)
      → done.status ≡ pos 0
      → (note_task t done start_round).tasks ≡ record t { height = done.height } ∷ []
  unfolding start_round
  note_task-open t done h =
      note_task-appends t done start_round
      ∙ ap
          (λ n.
            record t { height = (if eq_ℤ n (pos 1) then done.height +ℤ pos 1 else done.height) }
            ∷ [])
          h

  -- Before the call of the task: nothing has happened.
  record Before (w : World Float) (s : System Float (Option ℤ)) : Type 0 where
    not_done : s.round ≡ start_round
    one_ahead : s.ahead ≡ gensis ∷ []
    same_world : s.world ≡ w
    not_seen : s.seen ≡ none

  -- Behind the call.
  record Behind (w : World Float) (s : System Float (Option ℤ)) : Type 0 where
    height : ℤ
    stored : GensisStored env command w s.world height
    one_done : s.round.tasks ≡ record gensis { height = height } ∷ []
    none_ahead : s.ahead ≡ []
    seen_it : (s.seen ≡ none) ⊎ (s.seen ≡ some (height +ℤ pos 1))

  seen_by :
      (h : ℤ) (o : Option ℤ)
      → (o ≡ none) ⊎ (o ≡ some (h +ℤ pos 1))
      → (await_look o h ≡ none) ⊎ (await_look o h ≡ some (h +ℤ pos 1))
  unfolding await_look
  seen_by h none d = by_test (eq_ℤ h (negsuc 0))
    where
      by_test :
          (b : Bool)
          → ((if b then none else some (h +ℤ pos 1)) ≡ none)
            ⊎ ((if b then none else some (h +ℤ pos 1)) ≡ some (h +ℤ pos 1))
      by_test true = inl refl
      by_test false = inr refl
  seen_by h (some n) d = d

  -- The call of the genesis task, out of a list that holds it alone.
  called-Behind :
      (w : World Float) (seen : Option ℤ) (thread : Thread) (done : Task) (w' : World Float)
      → w.session.inited ≡ true
      → seen ≡ none
      → call env gensis w ≡ (ok done, w')
      → Behind w (record {
        thread = thread;
        round = note_task gensis done start_round;
        ahead = [];
        world = w';
        seen = seen;
      })
  unfolding call new_task
  called-Behind w seen thread done w' opened unseen e =
      let (wanted, fetched, at_command, count, reported, each, sent) =
        call_gensis-ok env good gensis w opened e in
      record {
        height = done.height;
        stored = record {
          wanted = wanted;
          fetched = fetched;
          at_command = at_command;
          reported = reported;
          count = count;
          each = each;
          rows_sent = sent;
        };
        one_done = note_task-open gensis done (call_gensis-status gensis w e);
        none_ahead = refl;
        seen_it = inl unseen;
      }

  -- What the thread of the scheduler is in does not matter to either.
  other_thread :
      (w : World Float) (s : System Float (Option ℤ)) (thread : Thread)
      → Before w s ⊎ Behind w s
      → Before w (record s { thread = thread }) ⊎ Behind w (record s { thread = thread })
  other_thread w s thread (inl b) = inl (record {
    not_done = b.not_done;
    one_ahead = b.one_ahead;
    same_world = b.same_world;
    not_seen = b.not_seen;
  })
  other_thread w s thread (inr b) = inr (record {
    height = b.height;
    stored = b.stored;
    one_done = b.one_done;
    none_ahead = b.none_ahead;
    seen_it = b.seen_it;
  })

  Step-Inv :
      {s s' : System Float (Option ℤ)} (w : World Float)
      → w.session.inited ≡ true
      → Before w s ⊎ Behind w s
      → Step env true storage seq await_look s s'
      → Before w s' ⊎ Behind w s'
  unfolding await_look start_round new_task
  Step-Inv {s} w opened b (begins _ e) = rw e (other_thread w s (do_work s.thread) b)
  Step-Inv {s} w opened b (ends _ a _ e) = rw e (other_thread w s (end_work s.thread) b)
  Step-Inv w opened b (repeats _ _ o e) = absurd (cc)
  Step-Inv {s} w opened (inl b) (calls t done ts w' _ a e h) =
      let same : gensis ∷ [] ≡ t ∷ ts = sym b.one_ahead ∙ a in
      let called : call env gensis w ≡ (ok done, w') =
        ap (λ x. call env x w) (head-eq same) ∙ ap (λ x. call env t x) (sym b.same_world) ∙ e in
      let same_round = sym b.not_done in
      inr (
        rw h (
          subst {A = Round × List Task}
            (λ x. Behind w (record s { round = x.0; ahead = x.1; world = w' }))
            (λ i. (note_task (head-eq same i) done (same_round i), tail-eq same i))
            (called-Behind w s.seen s.thread done w' opened b.not_seen called)))
  Step-Inv w opened (inr b) (calls t done ts w' _ a e h) = absurd (cc b.none_ahead)
  Step-Inv {s} w opened (inl b) (looks e) = inl (
      rw e (record {
        not_done = b.not_done;
        one_ahead = b.one_ahead;
        same_world = b.same_world;
        not_seen =
            ap (λ o. await_look o (get_task storage seq (s.round.tasks ++ s.ahead)).height)
              b.not_seen
            ∙ ap (λ (t : Task). await_look none t.height)
                (ap (get_task storage seq)
                    (ap (λ (r : Round). r.tasks ++ s.ahead) b.not_done ∙ b.one_ahead)
                  ∙ get_task-one storage seq gensis);
      }))
  Step-Inv {s} w opened (inr b) (looks e) = inr (
      rw e (record {
        height = b.height;
        stored = b.stored;
        one_done = b.one_done;
        none_ahead = b.none_ahead;
        seen_it =
            subst
              (λ h. (await_look s.seen h ≡ none) ⊎ (await_look s.seen h ≡ some (b.height +ℤ pos 1)))
              (sym (
                ap (λ (t : Task). t.height)
                  (ap (get_task storage seq) (
                      ap (λ ts. ts ++ s.ahead) b.one_done
                      ∙ ap (λ ts. record gensis { height = b.height } ∷ ts) b.none_ahead)
                    ∙ get_task-one storage seq (record gensis { height = b.height }))))
              (seen_by b.height s.seen b.seen_it);
      }))

  reached :
      (w : World Float) {s : System Float (Option ℤ)}
      → w.session.inited ≡ true
      → Reach env true storage seq await_look (started gensis w none) s
      → Before w s ⊎ Behind w s
  reached w opened here =
      inl (record { not_done = refl; one_ahead = refl; same_world = refl; not_seen = refl })
  reached w opened (next r step) = Step-Inv w opened (reached w opened r) step

  seen_height : (o : Option ℤ) (h n : ℤ) → o ≡ some n → (o ≡ none) ⊎ (o ≡ some h) → h ≡ n
  seen_height o h n e (inl d) = absurd (cc)
  seen_height o h n e (inr d) = cc

  -- The thread of the genesis task and the loop of `initGensisBlock`, in any order of their steps, over
  -- a connection that is open and does not fail: once the loop has ended, the task has stored all its
  -- blocks, from 0 to the height that it reports, each with its transactions, as `GensisStored` says;
  -- and the height at which `main` goes on is the one behind it.
  pub awaited-stored :
      {s : System Float (Option ℤ)} {n : ℤ} (w : World Float)
      → w.session.inited ≡ true
      → Reach env true storage seq await_look (started gensis w none) s
      → s.seen ≡ some n
      → (height : ℤ) × (height +ℤ pos 1 ≡ n) × GensisStored env command w s.world height
  awaited-stored {s} {n} w opened r e = by_state (reached w opened r)
    where
      by_state :
          Before w s ⊎ Behind w s
          → (height : ℤ) × (height +ℤ pos 1 ≡ n) × GensisStored env command w s.world height
      by_state (inl b) = absurd (cc b.not_seen)
      by_state (inr b) = (b.height, seen_height s.seen _ n e b.seen_it, b.stored)
