-- ===== src/Balancer/Settle/Releases.antt =====
-- The releases of internal/balancer/pool.go and attempt_result.go on the number of attempts under way.
use Prim.Native.String.{String}
use jc_proxy.Prelude.{ℕ, ◌-◌, ◌≡◌, Bool, Option, arith, ◌==◌}
use jc_proxy.Balancer.Settle.Attempt.{settle-inflight}
use jc_proxy.Prelude.Float.{FloatOps}
use jc_proxy.Prelude.Int.{ℤ, Time, Duration}
use jc_proxy.Balancer.KeyState.{
  record_failure, note_sample, sync_stats_generation, KeyState, drop_inflight,
}
use jc_proxy.Balancer.Pool.{Pool, inflight_of}
use jc_proxy.Balancer.Pool.Inflight.{less_if, inflight_of-modify, inflight_of-modify_same}
use jc_proxy.Balancer.Settle.{
  AttemptResult, Clock, release_success, release, release_interrupted, release_failure, observe_at,
  cooldown_at, disable_at, complete_attempt, record_key_sample, record_sample_at, settle_success,
  settle_observe, settle_cooldown, settle_disable,
}

module _ {F : Type 0} where
  settle_success-inflight :
      (expected : Option ℤ) (k : KeyState F) → (settle_success expected k).inflight ≡ k.inflight - 1
  unfolding settle_success drop_inflight
  settle_success-inflight expected k = ground arith

  settle_observe-inflight :
      (status : ℕ) (reason : String) (expected : Option ℤ) (k : KeyState F)
      → (settle_observe status reason expected k).inflight ≡ k.inflight - 1
  unfolding settle_observe drop_inflight
  settle_observe-inflight status reason expected k = ground arith

  settle_cooldown-inflight :
      (now : Time) (status : ℕ) (reason : String) (base : Duration) (expected : Option ℤ)
      (k : KeyState F)
      → (settle_cooldown now status reason base expected k).inflight ≡ k.inflight - 1
  unfolding settle_cooldown drop_inflight
  settle_cooldown-inflight now status reason base expected k = ground arith

  settle_disable-inflight :
      (now : Time) (status : ℕ) (reason by : String) (expected : Option ℤ) (k : KeyState F)
      → (settle_disable now status reason by expected k).inflight ≡ k.inflight - 1
  unfolding settle_disable drop_inflight
  settle_disable-inflight now status reason by expected k = ground arith

  -- The pool has one attempt fewer under way on the key of an index, and as many on the others.
  abbrev pub Settles : ℕ → Pool F → Pool F → Type 0
  Settles idx p q = (i : ℕ) → inflight_of q.keys i ≡ less_if (i == idx) (inflight_of p.keys i)

  pub release_success-Settles :
      (idx : ℕ) (expected : Option ℤ) (p : Pool F) → Settles idx p (release_success idx expected p)
  unfolding release_success
  release_success-Settles idx expected p =
      inflight_of-modify (settle_success expected) (settle_success-inflight expected) p.keys idx

  pub release-Settles : (idx : ℕ) (p : Pool F) → Settles idx p (release idx p)
  unfolding release drop_inflight
  release-Settles idx p = inflight_of-modify drop_inflight (λ k. ground arith) p.keys idx

  pub release_interrupted-Settles :
      (idx : ℕ) (p : Pool F) → Settles idx p (release_interrupted idx p)
  unfolding release_interrupted drop_inflight
  release_interrupted-Settles idx p = inflight_of-modify _ (λ k. ground arith) p.keys idx

  pub release_failure-Settles : (idx : ℕ) (p : Pool F) → Settles idx p (release_failure idx p)
  unfolding release_failure drop_inflight record_failure
  release_failure-Settles idx p = inflight_of-modify _ (λ k. ground arith) p.keys idx

  pub observe_at-Settles :
      (idx status : ℕ) (reason : String) (expected : Option ℤ) (p : Pool F)
      → Settles idx p (observe_at idx status reason expected p)
  unfolding observe_at
  observe_at-Settles idx status reason expected p =
      inflight_of-modify _ (settle_observe-inflight status reason expected) p.keys idx

  pub cooldown_at-Settles :
      (now : Time) (idx status : ℕ) (reason : String) (base : Duration) (expected : Option ℤ)
      (p : Pool F)
      → Settles idx p (cooldown_at now idx status reason base expected p)
  unfolding cooldown_at
  cooldown_at-Settles now idx status reason base expected p =
      inflight_of-modify _ (settle_cooldown-inflight now status reason base expected) p.keys idx

  pub disable_at-Settles :
      (now : Time) (idx status : ℕ) (reason by : String) (expected : Option ℤ) (p : Pool F)
      → Settles idx p (disable_at now idx status reason by expected p).0
  unfolding disable_at
  disable_at-Settles now idx status reason by expected p =
      inflight_of-modify _ (settle_disable-inflight now status reason by expected) p.keys idx

module _ {F : Type 0} ⦃fl : FloatOps F⦄ where
  pub complete_attempt-Settles :
      (c : Clock) (idx : ℕ) (version : ℤ) (r : AttemptResult) (p : Pool F)
      → Settles idx p (complete_attempt c idx version r p).0
  unfolding complete_attempt
  complete_attempt-Settles c idx version r p =
      inflight_of-modify _ (λ k. settle-inflight c r version k) p.keys idx

  record_key_sample-inflight :
      (c : Clock) (header full : Duration) (ok : Bool) (expected : Option ℤ) (k : KeyState F)
      → (record_key_sample c header full ok expected k).inflight ≡ k.inflight
  unfolding record_key_sample note_sample sync_stats_generation
  record_key_sample-inflight c header full ok expected k = ground arith

  pub record_sample_at-inflight :
      (c : Clock) (idx : ℕ) (header full : Duration) (ok : Bool) (expected : Option ℤ) (p : Pool F)
      (i : ℕ)
      → inflight_of (record_sample_at c idx header full ok expected p).keys i ≡ inflight_of p.keys i
  unfolding record_sample_at
  record_sample_at-inflight c idx header full ok expected p i =
      inflight_of-modify_same _ (record_key_sample-inflight c header full ok expected) p.keys idx i
