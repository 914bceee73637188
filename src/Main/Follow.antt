-- ===== src/Main/Follow.antt =====
-- What `main` sees of the scheduler that follows the chain, and what that has stored.
use mathlib.Core.Path.{subst}
use fidinventor.Base.{
  ℕ, ◌+◌, ◌≤◌, ◌<◌, ◌^◌, ◌≡◌, refl, ap, sym, ◌∙◌, ◌⊎◌, inl, inr, true, false, List, [], ◌∷◌, ◌++◌,
  append-nil, length, length-append, arith, ℤ, pos, negsuc, eq_ℤ, if◌then◌else◌, head-eq, tail-eq,
}
use fidinventor.Base.Result.{ok}
use fidinventor.Args.{i64tostr}
use fidinventor.Db.Laws.{NeverFails}
use fidinventor.Handler.World.{Env, World}
use fidinventor.Task.Types.{Task, task_block_or_trans, new_task}
use fidinventor.Task.Run.{task_height, call}
use fidinventor.Task.Schedule.{Round, start_round, note_task, get_task}
use fidinventor.Task.Rounds.{put_back, note_task-appends}
use fidinventor.Task.Gensis.{Fetched, rows_of}
use fidinventor.Task.Registry.{registered, get_task-one}
use fidinventor.Task.Follow.{HasSmallCounts, follower, Followed, set_height}
use fidinventor.Task.NextBlock.{call-Followed}
use fidinventor.Thread.{Thread, do_work}
use fidinventor.Main.System.{
  System, Step, Reach, begins, calls, repeats, ends, looks, here, next, follow_look, started,
}
use fidinventor.Main.Laws.{wanted-registered}

module _ (env : Env) (good : NeverFails (Env.server env)) (small : HasSmallCounts env)
    (storage seq : ℤ) (n : ℕ) (positive : 0 < n) where
  open env use {floats.{Float}}

  -- Where the task stands in the list: ahead in this round, or done in it.
  abbrev pub InList : Task → System Float ℤ → Type 0
  InList t s =
      ((s.round.tasks ≡ []) × (s.ahead ≡ t ∷ [])) ⊎ ((s.round.tasks ≡ t ∷ []) × (s.ahead ≡ []))

  pub InList-listed :
      (t : Task) (s : System Float ℤ) → InList t s → s.round.tasks ++ s.ahead ≡ t ∷ []
  InList-listed t s (inl (done, ahead)) = ap (λ l. l ++ s.ahead) done ∙ ahead
  InList-listed t s (inr (done, ahead)) = ap (λ l. l ++ s.ahead) done ∙ ap (λ l. t ∷ l) ahead

  -- A height that `main` has seen, no further than the next one that is wanted.
  abbrev pub IsSeen : ℤ → ℕ → Type 0
  IsSeen seen last = (m : ℕ) × (seen ≡ pos m) × (n ≤ m) × (m ≤ last)

  later-IsSeen : (seen : ℤ) (last after : ℕ) → last ≤ after → IsSeen seen last → IsSeen seen after
  later-IsSeen seen last after h (m, e, low, high) = (m, e, low, omega (arith, h, high))

  -- A state of the program: what was stored, and the task that wants the block behind it.
  pub record Follows (w₀ : World Float) (s : System Float ℤ) : Type 0 where
    pub fetched : List (Fetched Float)
    pub height : ℤ
    pub stored : Followed env n w₀ s.world fetched
    pub in_list : InList (follower storage seq n height) s
    pub wants : task_height env (follower storage seq n height) ≡ pos (n + length fetched)
    pub put : (height ≡ negsuc 0) ⊎ (height ≡ pos (n + length fetched))
    pub seen : IsSeen s.seen (n + length fetched)

  looked :
      (seen height : ℤ) (last : ℕ)
      → (height ≡ negsuc 0) ⊎ (height ≡ pos last)
      → n ≤ last
      → IsSeen seen last
      → IsSeen (follow_look seen height) last
  unfolding follow_look
  looked seen height last (inl e) h d =
      subst (λ x. IsSeen x last) (sym (ap (λ x. if eq_ℤ x (negsuc 0) then seen else x) e)) d
  looked seen height last (inr e) h d =
      let no_sign : eq_ℤ (pos last) (negsuc 0) ≡ false = ground arith in
      (
        last,
        ap (λ x. if eq_ℤ x (negsuc 0) then seen else x) e
            ∙ ap (λ b. if b then seen else pos last) no_sign,
        h,
        omega arith,
      )

  -- A state that a call of the task leaves.
  called-Follows :
      (w₀ : World Float) (s : System Float ℤ) (b : Follows w₀ s) (done : Task) (w' : World Float)
      (round : Round)
      → w₀.session.inited ≡ true
      → call env (follower storage seq n b.height) s.world ≡ (ok done, w')
      → round.tasks ≡ follower storage seq n (put_back done) ∷ []
      → Follows w₀ (record s { round = round; ahead = []; world = w' })
  called-Follows w₀ s b done w' round opened h one = by_call (
      call-Followed env good small storage seq n positive b.height b.fetched w₀ s.world opened
        b.stored b.wants h)
    where
      by_call :
          (Followed env n w₀ w' b.fetched × (put_back done ≡ b.height))
            ⊎ ((f : Fetched Float) × Followed env n w₀ w' (b.fetched ++ f ∷ [])
                × (put_back done ≡ pos (n + length b.fetched + 1)))
          → Follows w₀ (record s { round = round; ahead = []; world = w' })
      by_call (inl (stored, same)) = record {
        fetched = b.fetched;
        height = put_back done;
        stored = stored;
        in_list = inr (one, refl);
        wants = ap (λ x. task_height env (follower storage seq n x)) same ∙ b.wants;
        put = subst (λ x. (x ≡ negsuc 0) ⊎ (x ≡ pos (n + length b.fetched))) (sym same) b.put;
        seen = b.seen;
      }
      by_call (inr (f, stored, up)) =
          let more : n + length b.fetched + 1 ≡ n + length (b.fetched ++ f ∷ []) =
            omega (arith, length-append b.fetched (f ∷ [])) in
          let at_next = up ∙ ap pos more in
          record {
            fetched = b.fetched ++ f ∷ [];
            height = put_back done;
            stored = stored;
            in_list = inr (one, refl);
            wants =
                ap (λ x. task_height env (follower storage seq n x)) at_next
                ∙ set_height env (follower storage seq n (pos 0)) _;
            put = inr at_next;
            seen = later-IsSeen s.seen _ _ (omega (arith, more)) b.seen;
          }

  -- A state with the same world, the task in its list, and a height that was seen.
  same-Follows :
      (w₀ : World Float) (s : System Float ℤ) (b : Follows w₀ s) (thread : Thread) (round : Round)
      (ahead : List Task) (seen : ℤ)
      → InList (follower storage seq n b.height) (record s { round = round; ahead = ahead })
      → IsSeen seen (n + length b.fetched)
      → Follows w₀ (record s { thread = thread; round = round; ahead = ahead; seen = seen })
  same-Follows w₀ s b thread round ahead seen in_list is_seen = record {
    fetched = b.fetched;
    height = b.height;
    stored = b.stored;
    in_list = in_list;
    wants = b.wants;
    put = b.put;
    seen = is_seen;
  }

  Step-Follows :
      {s s' : System Float ℤ} (w₀ : World Float)
      → w₀.session.inited ≡ true
      → Follows w₀ s
      → Step env false storage seq follow_look s s'
      → Follows w₀ s'
  unfolding start_round
  Step-Follows {s} w₀ opened b (begins _ e) =
      rw e (same-Follows w₀ s b (do_work s.thread) s.round s.ahead s.seen b.in_list b.seen)
  Step-Follows {s} w₀ opened b (ends _ _ o e) = absurd (cc)
  Step-Follows {s} w₀ opened b (repeats _ a _ e) = rw e (
      same-Follows w₀ s b s.thread start_round s.round.tasks s.seen
        (inl (
          refl,
          sym (append-nil s.round.tasks)
              ∙ ap (λ l. s.round.tasks ++ l) (sym a)
              ∙ InList-listed (follower storage seq n b.height) s b.in_list,
        ))
        b.seen)
  Step-Follows {s} w₀ opened b (looks e) = rw e (
      same-Follows w₀ s b s.thread s.round s.ahead _ b.in_list (
        subst (λ h. IsSeen (follow_look s.seen h) (n + length b.fetched))
          (sym (
            ap (λ (t : Task). t.height)
              (ap (get_task storage seq)
                  (InList-listed (follower storage seq n b.height) s b.in_list)
                ∙ get_task-one storage seq (follower storage seq n b.height))))
          (looked s.seen b.height (n + length b.fetched) b.put (omega arith) b.seen)))
  Step-Follows {s} w₀ opened b (calls t done ts w' _ a e h) = rw h (by_place b.in_list)
    where
      by_place :
          InList (follower storage seq n b.height) s
          → Follows w₀ (record s { round = note_task t done s.round; ahead = ts; world = w' })
      by_place (inr (one, none_ahead)) = absurd (cc none_ahead)
      by_place (inl (none_done, one_ahead)) =
          let same : follower storage seq n b.height ∷ [] ≡ t ∷ ts = sym one_ahead ∙ a in
          let at_task = head-eq same in
          let no_more = tail-eq same in
          subst
            (λ l. Follows w₀ (record s { round = note_task t done s.round; ahead = l; world = w' }))
            no_more
            (called-Follows w₀ s b done w' (note_task t done s.round) opened
              (ap (λ x. call env x s.world) at_task ∙ e)
              (note_task-appends t done s.round
                ∙ ap (λ l. l ++ record t { height = put_back done } ∷ []) none_done
                ∙ ap (λ (x : Task). record x { height = put_back done } ∷ []) (sym at_task)))

  pub reached :
      (w : World Float) {s : System Float ℤ}
      → w.session.inited ≡ true
      → n < 2 ^ 31
      → Reach env false storage seq follow_look
          (started (registered storage task_block_or_trans (i64tostr (pos n)) seq) w (pos n))
          s
      → Follows w s
  unfolding start_round new_task rows_of
  reached w opened fits here = record {
    fetched = [];
    height = negsuc 0;
    stored = record {
      each = tt;
      rows_sent = ap (λ l. record w.session { sent = l }) (sym (append-nil w.session.sent));
      fits = omega arith;
    };
    in_list = inl (refl, refl);
    wants = wanted-registered env storage (pos n) seq (omega arith) ∙ ap pos (omega arith);
    put = inl refl;
    seen = (n, refl, omega arith, omega arith);
  }
  reached w opened fits (next r step) = Step-Follows w opened (reached w opened fits r) step

  -- A program that follows the chain from a positive height, over a connection that is open and does
  -- not fail, whose node counts less than 2^31 - 1 blocks: whatever the order of the steps of its two
  -- threads, what was sent are, one after the other, the rows of the blocks that were read for the
  -- heights from the first one on, one block for each height, each with its transactions as they were
  -- read out of the node's replies; and the height that `main` has seen is the first one or one behind
  -- a block that was read. A block has a row only where the reply to the call for its height gave it a
  -- hash: at a height whose reply was an error, nothing is sent for the block, and the next height
  -- follows all the same.
  pub chain_in_order :
      {s : System Float ℤ} (w : World Float)
      → w.session.inited ≡ true
      → n < 2 ^ 31
      → Reach env false storage seq follow_look
          (started (registered storage task_block_or_trans (i64tostr (pos n)) seq) w (pos n))
          s
      → (fetched : List (Fetched Float)) × Followed env n w s.world fetched
        × IsSeen s.seen (n + length fetched)
  chain_in_order w opened fits r = let b = reached w opened fits r in (b.fetched, b.stored, b.seen)
