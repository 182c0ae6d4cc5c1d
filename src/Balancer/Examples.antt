-- ===== src/Balancer/Examples.antt =====
-- Runs of the balancer on small pools, with thousandths for float64.
use jc_proxy.Prelude.{
  min, ◌*◌, ◌^◌, ◌-◌, set, take, ◌↔◌, arith, ℕ, false, [], ◌∷◌, none, some, refl, ◌≡◌, ◌==◌, true,
  inl,
}
use jc_proxy.Prelude.Int.{longest, int_laws, ℤ, pos, min_int64}
use jc_proxy.Prelude.Float.{milli}
use jc_proxy.Keystore.Status.{key_status_active, is_active_status, key_status_disabled_auto}
use jc_proxy.Balancer.Handle.{Handle, zero_handle, record_sample, sample_of}
use jc_proxy.Balancer.KeyState.{KeyState, is_current, is_ready}
use jc_proxy.Balancer.Pool.{retire, Pool, round_robin, lowest_latency, Strategy, Excluded}
use jc_proxy.Balancer.Handle.Lifecycle.{zero_handle}
use jc_proxy.Balancer.Handle.Accounts.{merge, change, IsCounted, change-IsCounted}
use jc_proxy.Keystore.RuntimeStats.{RuntimeStats, zero_stats}
use jc_proxy.Balancer.Handle.Ring.{RingOf, recent_samples, fresh_samples, record_sample-recent}
use jc_proxy.Balancer.Handle.Summary.{successes, record_sample-summary}
use jc_proxy.Balancer.Settle.Attempt.{Untouched}
use jc_proxy.Balancer.Settle.Outcome.{complete-Counted, complete-obsolete, complete-authorizes}
use jc_proxy.Balancer.Pick.Acquire.Retired.{acquire-retired}
use jc_proxy.Balancer.Pick.Acquire.Safety.{Acquired, acquire-Acquired}
use jc_proxy.Balancer.Settle.Penalty.{complete-cools, complete-disables}
use jc_proxy.Balancer.Cooldown.{scaled_cooldown_duration}
use jc_proxy.Balancer.Cooldown.Growth.{scaled_cooldown-eq}
use jc_proxy.Balancer.Pick.Acquire.{Attempt, acquire}
use jc_proxy.Balancer.Settle.{
  success, disable_key, AttemptAction, AttemptResult, Clock, complete_attempt, cooldown,
}

abbrev handle : Handle ℕ
handle = zero_handle

abbrev key_at : ℤ → ℕ → KeyState ℕ
key_at version busy = record {
  key = "k";
  status = key_status_active;
  disable_reason = "";
  disabled_at = none;
  disabled_by = "";
  version = version;
  inflight = busy;
  failures = 2;
  cooldown_until = pos 0;
  cooldown_level = 1;
  stats = handle;
  retired = false;
  last_attempt = min_int64;
  sample_expires = pos 1000;
  next_explore = min_int64;
  live_samples = 0;
  failed_samples = 0;
  stats_generation = 0;
}

abbrev pool : Strategy → Pool ℕ
pool s = record {
  strategy = s;
  keys = key_at (pos 1) 1 ∷ key_at (pos 2) 0 ∷ [];
  rr_idx = 0;
  credit = 0;
}

abbrev nobody : Excluded
nobody i = false

abbrev clock : Clock
clock = record { now = pos 5000; later = pos 5001; epoch = pos 4000 }

abbrev result : AttemptAction → AttemptResult
result a = record {
  action = a;
  status_code = 429;
  reason = "slow down";
  cooldown_time = pos 100;
  header_elapsed = pos 20;
  full_elapsed = pos 30;
}

abbrev attempt : Attempt
attempt = record { idx = 1; key = "k"; version = pos 2 }

acquire_test :
    (acquire (λ n. 0) (pos 5000) (pos 4000) (λ i. i == 0) none (pool round_robin)).1 ≡ some attempt
unfolding acquire is_ready is_active_status
acquire_test = refl

acquire-Acquired_example :
    Acquired
      (pos 5000)
      nobody
      none
      (pool lowest_latency)
      (acquire (λ n. 0) (pos 5000) (pos 4000) nobody none (pool lowest_latency))
acquire-Acquired_example =
    acquire-Acquired (λ n. 0) (pos 5000) (pos 4000) nobody none (pool lowest_latency) (λ n h. h)

acquire-retired_example :
    (acquire (λ n. 0) (pos 5000) (pos 4000) nobody none (retire (pool round_robin))).1 ≡ none
acquire-retired_example =
    acquire-retired (λ n. 0) (pos 5000) (pos 4000) nobody none (pool round_robin) (λ n h. h)

complete-Counted_example :
    let q = (complete_attempt clock 0 (pos 1) (result success) (pool round_robin)).0 in
    (k' : KeyState ℕ) × (q.keys ≡ set (pool round_robin).keys 0 k')
    × (k'.inflight ≡ 0)
    × (k'.stats.stats.total_requests ≡ 1)
    × (k'.stats.total_requests ≡ 1)
complete-Counted_example =
    complete-Counted clock (pos 1) (result success) (pool round_robin) 0 (key_at (pos 1) 1) refl
      refl

complete-obsolete_example :
    let r = complete_attempt clock 0 (pos 9) (result disable_key) (pool round_robin) in
    ((k' : KeyState ℕ) × (r.0.keys ≡ set (pool round_robin).keys 0 k')
      × Untouched (key_at (pos 1) 1) k')
    × (r.1 ≡ false)
unfolding is_current
complete-obsolete_example =
    complete-obsolete clock (pos 9) (result disable_key) (pool round_robin) 0 (key_at (pos 1) 1)
      refl refl

complete-authorizes_example :
    ((complete_attempt clock 0 (pos 1) (result disable_key) (pool round_robin)).1 ≡ true)
    ↔ ((is_current (some (pos 1)) (key_at (pos 1) 1) ≡ true) × (disable_key ≡ disable_key))
complete-authorizes_example =
    complete-authorizes clock (pos 1) (result disable_key) (pool round_robin) 0 (key_at (pos 1) 1)
      refl

complete-cools_example :
    (k' : KeyState ℕ) × ((complete_attempt clock 0
        (pos 1)
        (result cooldown)
        (pool round_robin)).0.keys
      ≡ set (pool round_robin).keys 0 k')
    × (is_ready (pos 5100) k' ≡ false)
unfolding is_current
complete-cools_example =
    complete-cools clock (pos 1) (result cooldown) (pool round_robin) 0 100 (key_at (pos 1) 1)
      (pos 5100) refl refl refl refl (omega arith) (omega arith) (omega int_laws)

complete-disables_example :
    (k' : KeyState ℕ) × ((complete_attempt clock 0
        (pos 1)
        (result disable_key)
        (pool round_robin)).0.keys
      ≡ set (pool round_robin).keys 0 k')
    × (k'.status ≡ key_status_disabled_auto)
    × (is_ready (pos 9999) k' ≡ false)
unfolding is_current
complete-disables_example =
    complete-disables clock (pos 1) (result disable_key) (pool round_robin) 0 (key_at (pos 1) 1)
      (pos 9999) refl refl refl

record_sample-recent_example :
    RingOf (record_sample (pos 20) (pos 30) true (pos 5000) handle)
    × (recent_samples (record_sample (pos 20) (pos 30) true (pos 5000) handle)
        ≡ take 5 (sample_of (pos 20) (pos 30) true ∷ fresh_samples (pos 5000) handle))
record_sample-recent_example =
    record_sample-recent (pos 20) (pos 30) true (pos 5000) handle
      (record { size = refl; next_in = omega arith; count_in = omega arith; filling = λ h. refl })

record_sample-summary_example :
    let g = record_sample (pos 20) (pos 30) true (pos 5000) handle in
    (g.stats.recent_requests ≡ g.sample_count)
    × (g.stats.recent_success_count ≡ successes (recent_samples g))
record_sample-summary_example =
    record_sample-summary (pos 20) (pos 30) true (pos 5000) handle
      (record { size = refl; next_in = omega arith; count_in = omega arith; filling = λ h. refl })

abbrev persisted : RuntimeStats ℕ
persisted = record zero_stats { total_requests = 7; success_count = 4; rate_limit_count = 2 }

change-IsCounted_example : IsCounted (change (merge persisted) zero_handle)
change-IsCounted_example =
    change-IsCounted (merge persisted) zero_handle (omega arith, inl (omega arith)) (omega arith)

scaled_cooldown-eq_example :
    scaled_cooldown_duration 4 (pos 100) ≡ pos (min (100 * 2 ^ (4 - 1)) longest)
scaled_cooldown-eq_example = scaled_cooldown-eq 4 100 (omega arith) (omega arith)
