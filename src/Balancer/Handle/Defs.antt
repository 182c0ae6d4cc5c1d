-- ===== src/Balancer/Handle/Defs.antt =====
-- internal/balancer/runtime_stats.go: the statistics handle of a key.
use jc_proxy.Prelude.{ℕ, ◌*◌, Bool, false, List, [], ◌∷◌}
use jc_proxy.Prelude.Int.{pos, Time, Duration, second, minute}
use jc_proxy.Keystore.RuntimeStats.{RuntimeStats}

abbrev pub recent_window_size : ℕ
recent_window_size = 5

abbrev pub failed_sample_penalty : Duration
failed_sample_penalty = pos (999 * second)

abbrev pub sample_freshness : Duration
sample_freshness = pos (5 * minute)

pub record RequestSample : Type 0 where
  pub header : Duration
  pub full : Duration
  pub success : Bool

abbrev pub zero_sample : RequestSample
zero_sample = record { header = pos 0; full = pos 0; success = false }

abbrev pub empty_window : List RequestSample
empty_window = zero_sample ∷ zero_sample ∷ zero_sample ∷ zero_sample ∷ zero_sample ∷ []

pub record Handle (F : Type 0) : Type 0 where
  pub stats : RuntimeStats F
  -- The atomic copy of `stats.total_requests`.
  pub total_requests : ℕ
  pub window : List RequestSample
  pub next_sample : ℕ
  pub sample_count : ℕ
  pub last_sample : Time
  pub latency_cost : F
  pub success_cost : F
  pub adaptive_cost : F
  pub generation : ℕ
