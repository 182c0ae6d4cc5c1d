-- ===== src/Balancer/Handle/Lifecycle.antt =====
-- internal/balancer/runtime_stats.go and stats_reset.go: how a handle starts, and how it is reset.
use jc_proxy.Prelude.{ℕ, ◌+◌, ◌%◌, ltb, ◌==◌, if◌then◌else◌}
use jc_proxy.Prelude.Int.{zero_time, two_64}
use jc_proxy.Prelude.Float.{FloatOps}
use jc_proxy.Keystore.RuntimeStats.{RuntimeStats, zero_stats, normalize_runtime_last_error}
use jc_proxy.Balancer.Handle.Defs.{Handle, empty_window}
use jc_proxy.Balancer.Handle.Costs.{update_costs}

unfoldable pub larger : ℕ → ℕ → ℕ
larger b n = if ltb n b then b else n

module _ {F : Type 0} ⦃fl : FloatOps F⦄ where
  unfoldable pub merge_recent : RuntimeStats F → Handle F → Handle F
  merge_recent baseline h =
      if h.sample_count == 0
      then update_costs (record h { stats = record h.stats { recent = baseline.recent } })
      else h

  unfoldable pub merge_counters : RuntimeStats F → RuntimeStats F → RuntimeStats F
  merge_counters b s = record s {
    last_status = if ltb s.total_requests b.total_requests then b.last_status else s.last_status;
    last_error =
        if ltb s.total_requests b.total_requests
        then normalize_runtime_last_error b.last_error
        else s.last_error;
    total_requests = larger b.total_requests s.total_requests;
    success_count = larger b.success_count s.success_count;
    unauthorized_count = larger b.unauthorized_count s.unauthorized_count;
    forbidden_count = larger b.forbidden_count s.forbidden_count;
    rate_limit_count = larger b.rate_limit_count s.rate_limit_count;
    other_error_count = larger b.other_error_count s.other_error_count;
  }

  unfoldable pub merge_baseline : RuntimeStats F → Handle F → Handle F
  unfolding merge_counters
  merge_baseline baseline h =
      let g = merge_recent baseline h in
      record g {
        stats = merge_counters baseline g.stats;
        total_requests =
            if ltb g.stats.total_requests baseline.total_requests
            then baseline.total_requests
            else g.total_requests;
      }

  -- The zero value of the struct.
  abbrev pub zero_handle : Handle F
  zero_handle = record {
    stats = zero_stats;
    total_requests = 0;
    window = empty_window;
    next_sample = 0;
    sample_count = 0;
    last_sample = zero_time;
    latency_cost = fl.lit 0 1;
    success_cost = fl.lit 0 1;
    adaptive_cost = fl.lit 0 1;
    generation = 0;
  }

  unfoldable pub new_handle : RuntimeStats F → Handle F
  new_handle initial = merge_baseline initial zero_handle

  abbrev pub cleared : Handle F → Handle F
  cleared h = record h {
    stats = zero_stats;
    total_requests = 0;
    window = empty_window;
    next_sample = 0;
    sample_count = 0;
    last_sample = zero_time;
  }

  -- What `ResetRuntimeStats` does to each handle once `persist` has succeeded.
  unfoldable pub reset : Handle F → Handle F
  reset h =
      let priced = update_costs (cleared h) in
      record priced { generation = (h.generation + 1) % two_64 }
