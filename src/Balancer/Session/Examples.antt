-- ===== src/Balancer/Session/Examples.antt =====
-- A pool with one key, an attempt on it, and its end.
use jc_proxy.Prelude.{ℕ, false, [], ◌∷◌, none, some, refl}
use jc_proxy.Prelude.Int.{wrap_int64, ◌+ℤ◌, pos, min_int64}
use jc_proxy.Prelude.Float.{milli}
use jc_proxy.Keystore.Status.{key_status_active, normalize_status, is_active_status}
use jc_proxy.Keystore.RuntimeStats.{zero_stats}
use jc_proxy.Balancer.Handle.{zero_handle}
use jc_proxy.Balancer.KeyState.{KeyState, is_ready}
use jc_proxy.Balancer.Pool.{Pool, KeyConfig, round_robin, Excluded, new_pool}
use jc_proxy.Balancer.Pick.Acquire.{Attempt, acquire}
use jc_proxy.Balancer.Session.{by_success, settle_by, acquires, settles, here, then_step, Reachable}
use jc_proxy.Balancer.Session.Balance.{Balanced, Reachable-Balanced}

abbrev config : KeyConfig ℕ
config = record {
  key = " k ";
  status = "";
  disable_reason = "";
  disabled_at = none;
  disabled_by = "";
  runtime_stats = zero_stats;
  version = pos 3;
  stats = some zero_handle;
}

abbrev key : KeyState ℕ
key = record {
  key = "k";
  status = key_status_active;
  disable_reason = "";
  disabled_at = none;
  disabled_by = "";
  version = pos 3;
  inflight = 0;
  failures = 0;
  cooldown_until = pos 0;
  cooldown_level = 0;
  stats = zero_handle;
  retired = false;
  last_attempt = min_int64;
  sample_expires = pos 300000000000;
  next_explore = min_int64;
  live_samples = 0;
  failed_samples = 0;
  stats_generation = 0;
}

abbrev pool : Pool ℕ
pool = record { strategy = round_robin; keys = key ∷ []; rr_idx = 0; credit = 0 }

abbrev nobody : Excluded
nobody i = false

abbrev attempt : Attempt
attempt = record { idx = 0; key = "k"; version = pos 3 }

abbrev busy : Pool ℕ
busy = (acquire (λ n. 0) (pos 5000) (pos 4000) nobody none pool).0

abbrev done : Pool ℕ
done = settle_by by_success attempt busy

run :
    Reachable
      (record { pool = pool; open_attempts = [] })
      (record { pool = done; open_attempts = [] })
unfolding acquire is_ready is_active_status
run =
    then_step (record { pool = busy; open_attempts = attempt ∷ [] }) _
      (then_step _ _ here (acquires (λ n. 0) (λ n h. h) (pos 5000) (pos 4000) nobody none pool []))
      (settles by_success attempt busy [] [])

Reachable-Balanced_example : Balanced (record { pool = done; open_attempts = [] })
unfolding new_pool normalize_status wrap_int64 ◌+ℤ◌
Reachable-Balanced_example =
    Reachable-Balanced (pos 0) "round_robin" (config ∷ []) pool
      (record { pool = done; open_attempts = [] }) refl run
