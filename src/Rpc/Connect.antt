-- ===== src/Rpc/Connect.antt =====
-- The loop of `CallRPC` that connects, with `-rpcwait` and without.
use fidinventor.Base.{ℕ, zero, suc, ◌+◌, ◌<◌, ◌≡◌, refl, ap, ◌∙◌, Bool, true, false, some, arith}
use fidinventor.Base.Result.{Result, ok}
use fidinventor.Rpc.Call.{after_try, connect_loop}

-- What the loop makes of a try.
connect_loop-by_try :
    (fuel attempt : ℕ) (connects : ℕ → Result Bool) (wait : Bool) (tried : Result Bool)
    → connects attempt ≡ tried
    → connect_loop (suc fuel) attempt connects wait
      ≡ after_try tried wait (connect_loop fuel (suc attempt) connects wait)
unfolding connect_loop
connect_loop-by_try fuel attempt connects wait tried h =
    ap (λ t. after_try t wait (connect_loop fuel (suc attempt) connects wait)) h

-- With the flag to wait, the loop ends with a connection as soon as a try is made at which the server
-- accepts: where try `attempt + n` does, more than `n` tries are enough, as long as the host's name
-- resolves in the tries before it.
pub connect_loop-waits :
    (n fuel attempt : ℕ) (connects : ℕ → Result Bool)
    → connects (n + attempt) ≡ ok true
    → ((i : ℕ) → i < n → (b : Bool) × (connects (i + attempt) ≡ ok b))
    → n < fuel
    → connect_loop fuel attempt connects true ≡ some (ok tt)
connect_loop-waits n zero attempt connects h resolves l = absurd (omega arith)
connect_loop-waits zero (suc fuel) attempt connects h resolves l =
    connect_loop-by_try fuel attempt connects true (ok true) (ap connects (omega arith) ∙ h)
connect_loop-waits (suc n) (suc fuel) attempt connects h resolves l =
    let (b, e) = resolves 0 (omega arith) in
    connect_loop-by_try fuel attempt connects true (ok b) (ap connects (omega arith) ∙ e)
    ∙ by_first b (
        connect_loop-waits n fuel (suc attempt) connects (ap connects (omega arith) ∙ h)
          (λ i k.
            let (b, e) = resolves (suc i) (omega (arith, k)) in (b, ap connects (omega arith) ∙ e))
          (omega arith))
  where
    by_first :
        (b : Bool)
        → connect_loop fuel (suc attempt) connects true ≡ some (ok tt)
        → after_try (ok b) true (connect_loop fuel (suc attempt) connects true) ≡ some (ok tt)
    by_first true e = refl
    by_first false e = e
