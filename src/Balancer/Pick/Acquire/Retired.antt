-- ===== src/Balancer/Pick/Acquire/Retired.antt =====
-- A retired pool of internal/balancer gives out no key.
use jc_proxy.Prelude.{ℕ, ◌<◌, ◌≡◌, refl, List, Option, none, some}
use jc_proxy.Prelude.Int.{Time}
use jc_proxy.Prelude.Float.{FloatOps}
use jc_proxy.Balancer.Pool.{Pool, Excluded, retire}
use jc_proxy.Balancer.Pool.Retired.{retire-is_available}
use jc_proxy.Balancer.Pick.Acquire.{Attempt, acquire}
use jc_proxy.Balancer.Pick.Acquire.Safety.{Acquired, acquire-Acquired}

Acquired-retired :
    {F : Type 0} (now : Time) (excluded : Excluded) (allowed : Option (List ℕ)) (p : Pool F)
    (r : Pool F × Option Attempt)
    → Acquired now excluded allowed (retire p) r
    → r.1 ≡ none
Acquired-retired now excluded allowed p (q, none) h = refl
Acquired-retired now excluded allowed p (q, some a) (_, available, _, _) =
    absurd (cc (available, retire-is_available p now excluded a.idx))

-- Once a pool is retired, no attempt starts on it, whatever the strategy and the candidates, if
-- `Intn` draws below its bound.
pub acquire-retired :
    {F : Type 0} ⦃fl : FloatOps F⦄ (intn : ℕ → ℕ) (now epoch : Time) (excluded : Excluded)
    (allowed : Option (List ℕ)) (p : Pool F)
    → ((n : ℕ) → 0 < n → intn n < n)
    → (acquire intn now epoch excluded allowed (retire p)).1 ≡ none
acquire-retired intn now epoch excluded allowed p below =
    Acquired-retired now excluded allowed p (acquire intn now epoch excluded allowed (retire p))
      (acquire-Acquired intn now epoch excluded allowed (retire p) below)
