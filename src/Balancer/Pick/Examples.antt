-- ===== src/Balancer/Pick/Examples.antt =====
-- Picks in a pool of three keys, the second of which is busy.
use mathlib.Core.List.{Memᴰ}
use jc_proxy.Prelude.{ℕ, false, [], ◌∷◌, none, some, refl, ◌≤◌, arith, ◌≡◌, true}
use jc_proxy.Prelude.Int.{pos, min_int64}
use jc_proxy.Prelude.Float.{milli}
use jc_proxy.Keystore.Status.{key_status_active, is_active_status}
use jc_proxy.Balancer.Handle.{zero_handle}
use jc_proxy.Balancer.KeyState.{KeyState, is_ready}
use jc_proxy.Balancer.Pool.{
  inflight_of, total_requests, Pool, least_used, round_robin, Strategy, Excluded, is_available,
}
use jc_proxy.Balancer.Pick.Distance.{distance}
use jc_proxy.Balancer.Pick.RoundRobin.{pick_round_robin}
use jc_proxy.Balancer.Pick.RoundRobin.Turn.{pick_round_robin-next}
use jc_proxy.Balancer.Pick.Score.{pick_by_score, used_score}
use jc_proxy.Balancer.Pick.Score.Least.{Precedes, pick_by_score-Precedes}

abbrev key_with : ℕ → KeyState ℕ
key_with busy = record {
  key = "k";
  status = key_status_active;
  disable_reason = "";
  disabled_at = none;
  disabled_by = "";
  version = pos 1;
  inflight = busy;
  failures = 0;
  cooldown_until = pos 0;
  cooldown_level = 0;
  stats = zero_handle;
  retired = false;
  last_attempt = min_int64;
  sample_expires = pos 1000;
  next_explore = min_int64;
  live_samples = 0;
  failed_samples = 0;
  stats_generation = 0;
}

abbrev pool : Strategy → Pool ℕ
pool s = record {
  strategy = s;
  keys = key_with 0 ∷ key_with 1 ∷ key_with 0 ∷ [];
  rr_idx = 1;
  credit = 0;
}

abbrev nobody : Excluded
nobody i = false

pick_round_robin-next_example :
    (i : ℕ) × (pick_round_robin (pos 5000) nobody (some (0 ∷ 1 ∷ [])) (pool round_robin) ≡ some i)
    × Memᴰ i (0 ∷ 1 ∷ [])
    × (is_available (pool round_robin).keys (pos 5000) nobody i ≡ true)
    × (distance 3 1 i ≤ distance 3 1 0)
unfolding is_available is_ready is_active_status
pick_round_robin-next_example =
    pick_round_robin-next (pos 5000) nobody (some (0 ∷ 1 ∷ [])) (pool round_robin) 0 (omega arith)
      (Memᴰ.head refl) refl

pick_by_score-Precedes_example :
    Precedes
      (used_score (pool least_used) 2)
      (distance 3 1 2)
      (used_score (pool least_used) 1)
      (distance 3 1 1)
unfolding pick_by_score used_score is_available is_ready is_active_status inflight_of total_requests
pick_by_score-Precedes_example =
    pick_by_score-Precedes (used_score (pool least_used)) (λ i j. refl) (pos 5000) nobody none
      (pool least_used) 2 1 refl (Memᴰ.tail (Memᴰ.head refl)) refl
