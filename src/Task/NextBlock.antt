-- ===== src/Task/NextBlock.antt =====
-- What a call of the task that follows the chain stores: the next block, or nothing.
use mathlib.Core.Path.{subst}
use fidinventor.Base.{
  ℕ, ◌+◌, ◌-◌, ◌<◌, ◌^◌, ◌≡◌, refl, ap, sym, ◌∙◌, ◌⊎◌, inl, inr, true, false, List, [], ◌∷◌, ◌++◌,
  append_assoc, append-nil, length, length-append, arith, ℤ, pos, ◌+ℤ◌, eq_ℤ, to_int32, leb_ℤ,
  ltb_ℤ, if◌then◌else◌,
}
use fidinventor.Base.Result.{Result, ok}
use fidinventor.Chain.Block.{Block, new_block}
use fidinventor.Db.Session.{Session}
use fidinventor.Db.Laws.{NeverFails, sending}
use fidinventor.Handler.World.{Env, World, ◌>>=◌}
use fidinventor.Handler.Fetch.{Handler, get_block_count}
use fidinventor.Handler.Store.{new_handler}
use fidinventor.Handler.Frames.{continue-ok, get_block_count-session}
use fidinventor.Handler.Inserts.{block_statements, txs_statements}
use fidinventor.Handler.Reads.{BlockOf}
use fidinventor.Task.Types.{Task, new_task}
use fidinventor.Task.Run.{task_height, call_block_or_trans, call}
use fidinventor.Task.Rounds.{put_back}
use fidinventor.Task.Gensis.{Fetched, rows_of}
use fidinventor.Task.Progress.{Waits, Stored, call_at_count-pos}
use fidinventor.Task.Follow.{
  HasSmallCounts, FollowedFrom-append, get_block_count-keeps, next_pos, to_int32-pos, not_beyond,
  not_zero, new_handler-block, new_handler-vtx, follower, Followed,
}

module _ (env : Env) (good : NeverFails (Env.server env)) (small : HasSmallCounts env)
    (storage seq : ℤ) (n : ℕ) (positive : 0 < n) where
  open env use {floats.{Float}, date_text}

  rows-append :
      (fs : List (Fetched Float)) (f : Fetched Float)
      → rows_of date_text (fs ++ f ∷ []) ≡ rows_of date_text fs ++ rows_of date_text (f ∷ [])
  unfolding rows_of
  rows-append [] f = rw append-nil
  rows-append (g ∷ fs) f =
      ap (λ l. (block_statements date_text g.block ++ txs_statements date_text g.txs) ++ l)
        (rows-append fs f)
      ∙ sym (append_assoc _ (rows_of date_text fs) (rows_of date_text (f ∷ [])))

  -- A task that waits puts its height back.
  Waits-Followed :
      (height : ℤ) (fetched : List (Fetched Float)) (w₀ w w₁ : World Float) {done : Task}
      {w' : World Float}
      → Followed env n w₀ w fetched
      → w₁.session ≡ w.session
      → Waits (follower storage seq n height) w₁ done w'
      → Followed env n w₀ w' fetched × (put_back done ≡ height)
  unfolding new_task
  Waits-Followed height fetched w₀ w w₁ {done} b same waits = (
    record {
      each = b.each;
      rows_sent = ap (λ (x : World Float). x.session) waits.same_world ∙ same ∙ b.rows_sent;
      fits = b.fits;
    },
    ap (λ (s : ℤ). if eq_ℤ s (pos 1) then done.height +ℤ pos 1 else done.height) waits.status_open
        ∙ waits.same_height,
  )

  -- A task that stores a block puts the height behind it back.
  stores-Followed :
      (height : ℤ) (fetched : List (Fetched Float)) (w₀ w w₁ : World Float) (hand : Handler Float)
      (count : ℤ) {done : Task} {w' : World Float}
      → Followed env n w₀ w fetched
      → w₁.session ≡ w.session
      → hand.block ≡ new_block env.block_storage
      → task_height env (follower storage seq n height) ≡ pos (n + length fetched)
      → ltb_ℤ count (pos (2 ^ 31 - 1)) ≡ true
      → ltb_ℤ count (task_height env (follower storage seq n height)) ≡ false
      → Stored env hand.block (task_height env (follower storage seq n height)) w₁ w' done
      → (f : Fetched Float) × Followed env n w₀ w' (fetched ++ f ∷ [])
        × (put_back done ≡ pos (n + length fetched + 1))
  unfolding rows_of
  stores-Followed height fetched w₀ w w₁ hand count {done} b same same_block wants below reached
        stored =
      let f : Fetched Float = record { block = stored.block; ids = stored.ids; txs = stored.txs } in
      let room =
        not_beyond count (n + length fetched) (ap (ltb_ℤ count) (sym wants) ∙ reached) below in
      let added = length-append fetched (f ∷ []) in
      let at_wanted : done.height ≡ pos (n + length fetched) =
        stored.at_height ∙ ap to_int32 wants ∙ to_int32-pos (n + length fetched) b.fits in
      (
        f,
        record {
          each =
              FollowedFrom-append env n (n + length fetched) fetched f refl b.each
                (subst
                  (λ (x : ℤ × Block Float). BlockOf env (to_int32 x.0) x.1 stored.block stored.ids)
                  (λ i. (wants i, same_block i)) stored.block_read)
                stored.txs_read;
          rows_sent =
              stored.rows_sent
              ∙ ap
                  (λ (s : Session Float). sending s (
                    block_statements date_text stored.block ++ txs_statements date_text stored.txs))
                  (same ∙ b.rows_sent)
              ∙ ap (λ l. record w₀.session { sent = l })
                  (append_assoc w₀.session.sent (rows_of date_text fetched) _
                    ∙ ap (λ l. w₀.session.sent ++ (rows_of date_text fetched ++ l))
                        (sym (append-nil _))
                    ∙ ap (λ l. w₀.session.sent ++ l) (sym (rows-append fetched f)));
          fits = omega (arith, room, added);
        },
        ap (λ (s : ℤ). if eq_ℤ s (pos 1) then done.height +ℤ pos 1 else done.height)
              stored.status_done
            ∙ ap (λ (h : ℤ). h +ℤ pos 1) at_wanted
            ∙ next_pos (n + length fetched),
      )

  -- A call of the task: the next block is stored, or nothing is.
  pub call-Followed :
      (height : ℤ) (fetched : List (Fetched Float)) (w₀ w : World Float) {done : Task}
      {w' : World Float}
      → w₀.session.inited ≡ true
      → Followed env n w₀ w fetched
      → task_height env (follower storage seq n height) ≡ pos (n + length fetched)
      → call env (follower storage seq n height) w ≡ (ok done, w')
      → (Followed env n w₀ w' fetched × (put_back done ≡ height))
        ⊎ ((f : Fetched Float) × Followed env n w₀ w' (fetched ++ f ∷ [])
            × (put_back done ≡ pos (n + length fetched + 1)))
  unfolding call call_block_or_trans ◌>>=◌ new_task
  call-Followed height fetched w₀ w {done} {w'} opened b wants h =
      let ((count, hand), w₁, e₁, h₁) = continue-ok (get_block_count env (new_handler env) w) _ h in
      let (same_block, no_txs) = get_block_count-keeps env (new_handler env) w e₁ in
      let same =
        sym (ap (λ (r : Result (ℤ × Handler Float) × World Float). r.1.session) e₁)
        ∙ get_block_count-session env (new_handler env) w w.session refl in
      let is_open = ap (λ (s : Session Float). s.inited) (same ∙ b.rows_sent) ∙ opened in
      let is_positive =
        ap (λ (x : ℤ). leb_ℤ x (pos 0)) wants
        ∙ not_zero (n + length fetched) (omega (arith, positive)) in
      by_call w₁ count hand same (small (new_handler env) hand w w₁ count e₁)
        (same_block ∙ new_handler-block env)
        (call_at_count-pos env good (follower storage seq n height) count hand w₁ is_open
          (no_txs ∙ new_handler-vtx env) is_positive h₁)
    where
      by_call :
          (w₁ : World Float) (count : ℤ) (hand : Handler Float)
          → w₁.session ≡ w.session
          → ltb_ℤ count (pos (2 ^ 31 - 1)) ≡ true
          → hand.block ≡ new_block env.block_storage
          → Waits (follower storage seq n height) w₁ done w'
            ⊎ ((ltb_ℤ count (task_height env (follower storage seq n height)) ≡ false)
                × Stored env hand.block
                    (task_height env (follower storage seq n height))
                    w₁
                    w'
                    done)
          → (Followed env n w₀ w' fetched × (put_back done ≡ height))
            ⊎ ((f : Fetched Float) × Followed env n w₀ w' (fetched ++ f ∷ [])
                × (put_back done ≡ pos (n + length fetched + 1)))
      by_call w₁ count hand same below same_block (inl waits) =
          inl (Waits-Followed height fetched w₀ w w₁ b same waits)
      by_call w₁ count hand same below same_block (inr (reached, stored)) = inr (
          stores-Followed height fetched w₀ w w₁ hand count b same same_block wants below reached
            stored)
