-- ===== src/Task/Stores.antt =====
-- That the task of the next block returns and stores the block, where the node has it.
use mathlib.Core.Path.{subst}
use fidinventor.Base.{
  ℕ, ◌+◌, ◌<◌, ◌^◌, ◌≡◌, refl, ap, sym, ◌∙◌, true, false, List, [], ◌∷◌, ◌++◌, append-nil, ℤ, pos,
  ltb_ℤ, leb_ℤ, eq_ℤ, ◌+ℤ◌, if◌then◌else◌,
}
use fidinventor.Base.Text.{Bytes}
use fidinventor.Base.Result.{Result, ok}
use fidinventor.Chain.Block.{Block, new_block}
use fidinventor.Db.Session.{Session}
use fidinventor.Db.Laws.{NeverFails, sending}
use fidinventor.Handler.World.{Env, World, Action, pure, continue, ◌>>=◌}
use fidinventor.Handler.Fetch.{Handler, get_block_count, get_block_by_number, get_transactions}
use fidinventor.Handler.Store.{new_handler, on_session}
use fidinventor.Handler.Reads.{BlockOf, EachTx}
use fidinventor.Handler.Frames.{
  get_block_count-session, get_block_by_number-session, get_transactions-session,
}
use fidinventor.Handler.Inserts.{block_statements, txs_statements, insert_db_block_trans-done}
use fidinventor.Task.Types.{Task, new_task}
use fidinventor.Task.Run.{call, call_block_or_trans, call_at_count, call_at_height, task_height}
use fidinventor.Task.Rounds.{put_back}
use fidinventor.Task.Progress.{Stored, call_at_height-ok}
use fidinventor.Task.Gensis.{Fetched, rows_of}
use fidinventor.Task.Follow.{
  follower, get_block_count-keeps, new_handler-block, new_handler-vtx, not_zero, to_int32-pos,
  next_pos,
}

module _ (env : Env) where
  open env use {floats.{Float}}

  -- The node has the block of height `m`: it counts at least `m` blocks, and gives this one and each
  -- transaction of it as the handler can read them, whenever it is asked.
  pub record AnswersAt (m : ℕ) : Type 0 where
    pub counts :
        (w : World Float)
        → (count : ℤ) × (hand : Handler Float) × (w₁ : World Float) × (get_block_count env
              (new_handler env)
              w
            ≡ (ok (count, hand), w₁))
          × (ltb_ℤ count (pos m) ≡ false)
    pub fetches :
        (hand : Handler Float) (w : World Float)
        → (ids : List Bytes) × (hand₁ : Handler Float) × (w₁ : World Float) × (get_block_by_number
              env
              (pos m)
              hand
              w
            ≡ (ok (ids, hand₁), w₁))
          × (hand₂ : Handler Float) × (w₂ : World Float) × (get_transactions env ids hand₁ w₁
              ≡ (ok hand₂, w₂))

-- The first action of a chain has succeeded.
continue-by :
    {F A B : Type 0} (first : Result A × World F) (next : A → Action F B) {a : A} {w : World F}
    {last : Result B × World F}
    → first ≡ (ok a, w)
    → next a w ≡ last
    → continue first next ≡ last
continue-by first next e h = ap (λ r. continue r next) e ∙ h

module _ (env : Env) (good : NeverFails (Env.server env)) (m : ℕ) (answers : AnswersAt env m)
    (fits : m < 2 ^ 31) where
  open env use {floats.{Float}, date_text}

  call_at_height-returns :
      (hand : Handler Float) (task : Task) (w : World Float)
      → w.session.inited ≡ true
      → (done : Task) × (w' : World Float) × (call_at_height env (pos m) hand task w
          ≡ (ok done, w'))
  unfolding call_at_height ◌>>=◌ on_session pure
  call_at_height-returns hand task w opened =
      let (ids, hand₁, w₁, e₁, hand₂, w₂, e₂) = answers.fetches hand w in
      let same₁ =
        sym (ap (λ (r : Result (List Bytes × Handler Float) × World Float). r.1.session) e₁)
        ∙ get_block_by_number-session env (pos m) hand w w.session refl in
      let same =
        sym (ap (λ (r : Result (Handler Float) × World Float). r.1.session) e₂)
        ∙ get_transactions-session env ids hand₁ w₁ w.session same₁ in
      let inserted =
        insert_db_block_trans-done env good hand₂ w₂.session
          (ap (λ (s : Session Float). s.inited) same ∙ opened) in
      (
        _,
        _,
        continue-by _ _ (ap (λ h. get_block_by_number env h hand w) (to_int32-pos m fits) ∙ e₁) (
            continue-by _ _ e₂ (
              continue-by _ _
                (ap (λ (r : Result ℤ × Session Float). (r.0, record w₂ { session = r.1 })) inserted)
                refl)),
      )

  call_at_count-returns :
      (task : Task) (count : ℤ) (hand : Handler Float) (w : World Float)
      → 0 < m
      → task_height env task ≡ pos m
      → ltb_ℤ count (pos m) ≡ false
      → w.session.inited ≡ true
      → hand.vtx ≡ []
      → (done : Task) × (w' : World Float) × (call_at_count env task (count, hand) w
          ≡ (ok done, w'))
        × Stored env hand.block (pos m) w w' done
  unfolding call_at_count
  call_at_count-returns task count hand w positive wants reached opened none_before =
      let (done, w', e) = call_at_height-returns hand task w opened in
      (
        done,
        w',
        ap
              (λ h.
                (if leb_ℤ h (pos 0)
                    then call_at_height env count hand task
                    else if ltb_ℤ count h
                    then pure (record task { status = pos 0 })
                    else call_at_height env h hand task)
                  w)
              wants
            ∙ ap
                (λ b.
                  (if b
                      then call_at_height env count hand task
                      else if ltb_ℤ count (pos m)
                      then pure (record task { status = pos 0 })
                      else call_at_height env (pos m) hand task)
                    w)
                (not_zero m positive)
            ∙ ap
                (λ b.
                  (if b
                      then pure (record task { status = pos 0 })
                      else call_at_height env (pos m) hand task)
                    w)
                reached
            ∙ e,
        call_at_height-ok env good (pos m) hand task w opened none_before e,
      )

  -- A call of the task that wants this block returns, and has stored it.
  pub call-stores :
      (storage seq : ℤ) (n : ℕ) (height : ℤ) (w : World Float)
      → 0 < m
      → task_height env (follower storage seq n height) ≡ pos m
      → w.session.inited ≡ true
      → (done : Task) × (w' : World Float) × (call env (follower storage seq n height) w
          ≡ (ok done, w'))
        × (put_back done ≡ pos (m + 1))
        × (f : Fetched Float) × BlockOf env (pos m) (new_block env.block_storage) f.block f.ids
        × EachTx env f.ids f.txs
        × (w'.session ≡ sending w.session (rows_of date_text (f ∷ [])))
  unfolding call call_block_or_trans ◌>>=◌ new_task rows_of
  call-stores storage seq n height w positive wants opened =
      let (count, hand, w₁, e₁, reached) = answers.counts w in
      let (same_block, no_txs) = get_block_count-keeps env (new_handler env) w e₁ in
      let same =
        sym (ap (λ (r : Result (ℤ × Handler Float) × World Float). r.1.session) e₁)
        ∙ get_block_count-session env (new_handler env) w w.session refl in
      let (done, w', e, stored) =
        call_at_count-returns (follower storage seq n height) count hand w₁ positive wants reached
          (ap (λ (s : Session Float). s.inited) same ∙ opened) (no_txs ∙ new_handler-vtx env) in
      (
        done,
        w',
        continue-by _ _ e₁ e,
        ap (λ (s : ℤ). if eq_ℤ s (pos 1) then done.height +ℤ pos 1 else done.height)
              stored.status_done
            ∙ ap (λ (h : ℤ). h +ℤ pos 1) (stored.at_height ∙ to_int32-pos m fits)
            ∙ next_pos m,
        record { block = stored.block; ids = stored.ids; txs = stored.txs },
        subst (λ (x : ℤ × Block Float). BlockOf env x.0 x.1 stored.block stored.ids)
            (λ i. (to_int32-pos m fits i, (same_block ∙ new_handler-block env) i))
            stored.block_read,
        stored.txs_read,
        stored.rows_sent
            ∙ ap
                (λ s.
                  sending s (
                    block_statements date_text stored.block ++ txs_statements date_text stored.txs))
                same
            ∙ ap (sending w.session) (sym (append-nil _)),
      )
