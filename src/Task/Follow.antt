-- ===== src/Task/Follow.antt =====
-- What the calls of a task for the next block store, one behind the other.
use mathlib.Core.Path.{subst}
use fidinventor.Base.{
  ℕ, suc, ◌+◌, ◌-◌, ◌<◌, ◌^◌, ◌≡◌, refl, ap, sym, true, false, not, List, [], ◌∷◌, ◌++◌, length,
  arith, ℤ, pos, negsuc, ◌+ℤ◌, eq_ℤ, to_int32, leb_ℤ, ltb_ℤ, if◌then◌else◌,
}
use fidinventor.Base.Text.{codes, strtoll}
use fidinventor.Base.Result.{Result, ok, ok-injective}
use fidinventor.Args.{i64tostr}
use fidinventor.Chain.Block.{new_block}
use fidinventor.Db.Laws.{sending}
use fidinventor.Handler.World.{Env, World, pure, ◌>>=◌}
use fidinventor.Handler.Fetch.{Handler, fetch, get_block_count}
use fidinventor.Handler.Store.{new_handler}
use fidinventor.Handler.Frames.{continue-ok}
use fidinventor.Handler.Reads.{BlockOf, EachTx}
use fidinventor.Task.Types.{Task, task_block_or_trans}
use fidinventor.Task.Run.{task_height}
use fidinventor.Task.Gensis.{Fetched, rows_of}
use fidinventor.Task.Registry.{registered}

-- The number of blocks of the node leaves room for one more in an `int`.
abbrev pub HasSmallCounts : Env → Type 0
HasSmallCounts env =
    (hand hand' : Handler _) (w w' : World _) (count : ℤ)
    → get_block_count env hand w ≡ (ok (count, hand'), w')
    → ltb_ℤ count (pos (2 ^ 31 - 1)) ≡ true

module _ (env : Env) where
  open env use {floats.{Float}}

  -- The blocks from height `i` on, in their order, each read over a new one.
  abbrev pub FollowedFrom : ℕ → List (Fetched Float) → Type 0
  FollowedFrom i [] = Unit
  FollowedFrom i (f ∷ fs) =
      BlockOf env (to_int32 (pos i)) (new_block env.block_storage) f.block f.ids
      × EachTx env f.ids f.txs
      × FollowedFrom (suc i) fs

  pub FollowedFrom-append :
      (i j : ℕ) (fs : List (Fetched Float)) (f : Fetched Float)
      → i + length fs ≡ j
      → FollowedFrom i fs
      → BlockOf env (to_int32 (pos j)) (new_block env.block_storage) f.block f.ids
      → EachTx env f.ids f.txs
      → FollowedFrom i (fs ++ f ∷ [])
  FollowedFrom-append i j [] f e all block_read each =
      let same : j ≡ i = omega (arith, e) in
      (
        subst (λ k. BlockOf env (to_int32 (pos k)) (new_block env.block_storage) f.block f.ids) same
            block_read,
        each,
        tt,
      )
  FollowedFrom-append i j (g ∷ fs) f e (read, each₁, all) block_read each =
      (read, each₁, FollowedFrom-append (suc i) j fs f (omega (arith, e)) all block_read each)

  pub get_block_count-keeps :
      (hand : Handler Float) (w : World Float) {count : ℤ} {hand' : Handler Float}
      {w' : World Float}
      → get_block_count env hand w ≡ (ok (count, hand'), w')
      → (hand'.block ≡ hand.block) × (hand'.vtx ≡ hand.vtx)
  unfolding get_block_count ◌>>=◌ pure
  get_block_count-keeps hand w h =
      let (a, w₁, e₁, h₁) = continue-ok (fetch env (codes "getblockcount") w) _ h in
      let done = ok-injective (ap (λ (r : Result (ℤ × Handler Float) × World Float). r.0) h₁) in
      (
        sym (ap (λ (r : ℤ × Handler Float). r.1.block) done),
        sym (ap (λ (r : ℤ × Handler Float). r.1.vtx) done),
      )

pub next_pos : (n : ℕ) → pos n +ℤ pos 1 ≡ pos (n + 1)
next_pos n = ground arith

-- A positive `int` is kept by the conversion.
pub to_int32-pos : (n : ℕ) → n < 2 ^ 31 → to_int32 (pos n) ≡ pos n
to_int32-pos n h = ground arith

pub not_beyond :
    (count : ℤ) (m : ℕ)
    → ltb_ℤ count (pos m) ≡ false
    → ltb_ℤ count (pos (2 ^ 31 - 1)) ≡ true
    → m + 1 < 2 ^ 31
not_beyond count m h k = ground arith

pub not_zero : (m : ℕ) → 0 < m → leb_ℤ (pos m) (pos 0) ≡ false
not_zero m h = ground arith

pub set_height :
    (env : Env) (t : Task) (m : ℕ) → task_height env (record t { height = pos m }) ≡ pos m
unfolding task_height
set_height env t m =
    let no_sign : eq_ℤ (pos m) (negsuc 0) ≡ false = ground arith in
    ap (λ b. if not b then pos m else strtoll t.command) no_sign

pub new_handler-block : (env : Env) → (new_handler env).block ≡ new_block env.block_storage
unfolding new_handler
new_handler-block env = refl

pub new_handler-vtx : (env : Env) → (new_handler env).vtx ≡ []
unfolding new_handler
new_handler-vtx env = refl

-- The task that wants the blocks from height `n` on, with the height that was put back last.
abbrev pub follower : ℤ → ℤ → ℕ → ℤ → Task
follower storage seq n height =
    record (registered storage task_block_or_trans (i64tostr (pos n)) seq) { height = height }

module _ (env : Env) (n : ℕ) where
  open env use {floats.{Float}, date_text}

  -- What was stored: the blocks from height `n` on, in the order of their heights, the block behind
  -- them is wanted next, and nothing else was sent.
  pub record Followed (w w' : World Float) (fetched : List (Fetched Float)) : Type 0 where
    pub each : FollowedFrom env n fetched
    pub rows_sent : w'.session ≡ sending w.session (rows_of date_text fetched)
    pub fits : n + length fetched < 2 ^ 31
