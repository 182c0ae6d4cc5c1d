-- ===== src/Balancer/Session.antt =====
-- How callers use a pool of internal/balancer: attempts that are acquired and later settled, with
-- the admin's operations between them, in any order.
pub mod Balance
pub mod Examples
use Prim.Native.String.{String}
use jc_proxy.Prelude.{ℕ, Bool, List, [], ◌∷◌, ◌++◌, Option, none, some, ◌<◌}
use jc_proxy.Prelude.Int.{ℤ, Time, Duration}
use jc_proxy.Prelude.Float.{FloatOps}
use jc_proxy.Balancer.Pool.{Pool, Excluded, disable_key, enable_key, retire}
use jc_proxy.Balancer.Pick.Acquire.{Attempt, acquire}
use jc_proxy.Balancer.Settle.{
  AttemptResult, Clock, release_success, release, release_interrupted, release_failure, observe_at,
  cooldown_at, disable_at, complete_attempt, record_sample_at,
}

-- The calls that end an attempt.
pub data Settlement : Type 0 where
  by_result : Clock → AttemptResult → Settlement
  by_success : Settlement
  by_release : Settlement
  by_interruption : Settlement
  by_failure : Settlement
  by_observation : ℕ → String → Settlement
  by_cooldown : Time → ℕ → String → Duration → Settlement
  by_disabling : Time → ℕ → String → String → Settlement

pub record Session (F : Type 0) : Type 0 where
  pub pool : Pool F
  -- The attempts that were acquired and not yet settled.
  pub open_attempts : List Attempt

module _ {F : Type 0} where
  abbrev pub opened : List Attempt → Pool F × Option Attempt → Session F
  opened os (p, none) = record { pool = p; open_attempts = os }
  opened os (p, some a) = record { pool = p; open_attempts = a ∷ os }

module _ {F : Type 0} ⦃fl : FloatOps F⦄ where
  -- Each call gets the index and the version that the attempt was acquired with.
  unfoldable pub settle_by : Settlement → Attempt → Pool F → Pool F
  settle_by (by_result c r) a p = (complete_attempt c a.idx a.version r p).0
  settle_by by_success a p = release_success a.idx (some a.version) p
  settle_by by_release a p = release a.idx p
  settle_by by_interruption a p = release_interrupted a.idx p
  settle_by by_failure a p = release_failure a.idx p
  settle_by (by_observation status reason) a p = observe_at a.idx status reason (some a.version) p
  settle_by (by_cooldown now status reason base) a p =
      cooldown_at now a.idx status reason base (some a.version) p
  settle_by (by_disabling now status reason by) a p =
      (disable_at now a.idx status reason by (some a.version) p).0

-- One call.
pub data Step {F : Type 0} ⦃fl : FloatOps F⦄ : Session F → Session F → Type 0 where
  acquires :
      (intn : ℕ → ℕ) (below : (n : ℕ) → 0 < n → intn n < n) (now epoch : Time) (excluded : Excluded)
      (allowed : Option (List ℕ)) (p : Pool F) (os : List Attempt)
      → Step
          (record { pool = p; open_attempts = os })
          (opened os (acquire intn now epoch excluded allowed p))
  settles :
      (s : Settlement) (a : Attempt) (p : Pool F) (os os' : List Attempt)
      → Step
          (record { pool = p; open_attempts = os ++ a ∷ os' })
          (record { pool = settle_by s a p; open_attempts = os ++ os' })
  samples :
      (c : Clock) (idx : ℕ) (header full : Duration) (ok : Bool) (expected : Option ℤ) (p : Pool F)
      (os : List Attempt)
      → Step
          (record { pool = p; open_attempts = os })
          (record { pool = record_sample_at c idx header full ok expected p; open_attempts = os })
  disables :
      (now : Time) (key reason by : String) (p : Pool F) (os : List Attempt)
      → Step
          (record { pool = p; open_attempts = os })
          (record { pool = (disable_key now key reason by p).0; open_attempts = os })
  enables :
      (key : String) (p : Pool F) (os : List Attempt)
      → Step
          (record { pool = p; open_attempts = os })
          (record { pool = (enable_key key p).0; open_attempts = os })
  retires :
      (p : Pool F) (os : List Attempt)
      → Step
          (record { pool = p; open_attempts = os })
          (record { pool = retire p; open_attempts = os })

pub data Reachable {F : Type 0} ⦃fl : FloatOps F⦄ (start : Session F) : Session F → Type 0 where
  here : Reachable start start
  then_step : (s t : Session F) → Reachable start s → Step s t → Reachable start t
