-- ===== src/Keystore/RuntimeStats.antt =====
-- internal/keystore/store.go and recent_stats.go: the counters of a key, and their deltas.
pub mod Deltas
use Prim.Native.String.{String}
use text.Mathlib.Text.{◌==◌ as str_eq}
use jc_proxy.Prelude.{
  ℕ, ◌+◌, ◌-◌, Bool, ◌&&◌, ◌||◌, Option, none, some, ltb, leb, ◌==◌, if◌then◌else◌,
}
use jc_proxy.Prelude.Float.{FloatOps}
use jc_proxy.Prelude.Text.{trim_space, is_empty, rune_count, take_runes, append}

pub record RecentStats (F : Type 0) : Type 0 where
  pub recent_requests : ℕ
  pub recent_success_count : ℕ
  pub header_samples : ℕ
  pub avg_header_ms : F
  pub response_samples : ℕ
  pub avg_response_ms : F

pub record RuntimeStats (F : Type 0) : Type 0 where
  pub recent : RecentStats F
  pub open recent use *
  pub total_requests : ℕ
  pub success_count : ℕ
  pub last_status : ℕ
  pub unauthorized_count : ℕ
  pub forbidden_count : ℕ
  pub rate_limit_count : ℕ
  pub other_error_count : ℕ
  pub last_error : String

-- Also `normalizeLastError` of internal/balancer/pool.go, with its `maxLastErrorLength` of 240.
unfoldable pub normalize_runtime_last_error : String → String
normalize_runtime_last_error message =
    let m = trim_space message in
    if is_empty m then "" else if leb (rune_count m) 240 then m else append (take_runes 237 m) "..."

module _ {F : Type 0} ⦃fl : FloatOps F⦄ where
  abbrev pub zero_recent : RecentStats F
  zero_recent = record {
    recent_requests = 0;
    recent_success_count = 0;
    header_samples = 0;
    avg_header_ms = fl.lit 0 1;
    response_samples = 0;
    avg_response_ms = fl.lit 0 1;
  }

  abbrev pub zero_stats : RuntimeStats F
  zero_stats = record {
    recent = zero_recent;
    total_requests = 0;
    success_count = 0;
    last_status = 0;
    unauthorized_count = 0;
    forbidden_count = 0;
    rate_limit_count = 0;
    other_error_count = 0;
    last_error = "";
  }

  -- `==` on the struct.
  unfoldable pub recent_equal : RecentStats F → RecentStats F → Bool
  recent_equal r q =
      r.recent_requests == q.recent_requests
      && r.recent_success_count == q.recent_success_count
      && r.header_samples == q.header_samples
      && fl.equal r.avg_header_ms q.avg_header_ms
      && r.response_samples == q.response_samples
      && fl.equal r.avg_response_ms q.avg_response_ms

  unfoldable pub shrinks : RuntimeStats F → RuntimeStats F → Bool
  shrinks s prev =
      ltb s.total_requests prev.total_requests
      || ltb s.success_count prev.success_count
      || ltb s.unauthorized_count prev.unauthorized_count
      || ltb s.forbidden_count prev.forbidden_count
      || ltb s.rate_limit_count prev.rate_limit_count
      || ltb s.other_error_count prev.other_error_count

  grows : RuntimeStats F → RuntimeStats F → Bool
  grows s prev =
      ltb 0 (s.total_requests - prev.total_requests)
      || ltb 0 (s.success_count - prev.success_count)
      || ltb 0 (s.unauthorized_count - prev.unauthorized_count)
      || ltb 0 (s.forbidden_count - prev.forbidden_count)
      || ltb 0 (s.rate_limit_count - prev.rate_limit_count)
      || ltb 0 (s.other_error_count - prev.other_error_count)

  -- The differences are taken only where no counter fell, so `-` is exact.
  unfoldable pub difference : RuntimeStats F → RuntimeStats F → RuntimeStats F
  unfolding grows
  difference s prev = record {
    recent = if recent_equal s.recent prev.recent then zero_recent else s.recent;
    total_requests = s.total_requests - prev.total_requests;
    success_count = s.success_count - prev.success_count;
    last_status = if grows s prev then s.last_status else 0;
    unauthorized_count = s.unauthorized_count - prev.unauthorized_count;
    forbidden_count = s.forbidden_count - prev.forbidden_count;
    rate_limit_count = s.rate_limit_count - prev.rate_limit_count;
    other_error_count = s.other_error_count - prev.other_error_count;
    last_error = if grows s prev then s.last_error else "";
  }

  -- `none` is the result `(RuntimeStats{}, false)`.
  unfoldable pub delta_since : RuntimeStats F → RuntimeStats F → Option (RuntimeStats F)
  unfolding shrinks difference
  delta_since s prev = if shrinks s prev then none else some (difference s prev)

module _ {F : Type 0} where
  -- `max(0, …)` is the truncation of `-`.
  unfoldable pub interrupted_count : RuntimeStats F → ℕ
  interrupted_count s =
      s.total_requests - s.success_count - s.unauthorized_count - s.forbidden_count
      - s.rate_limit_count - s.other_error_count

  unfoldable pub apply_delta : RuntimeStats F → RuntimeStats F → RuntimeStats F
  apply_delta s delta = record {
    recent = if ltb 0 delta.recent_requests then delta.recent else s.recent;
    total_requests = s.total_requests + delta.total_requests;
    success_count = s.success_count + delta.success_count;
    last_status = if ltb 0 delta.total_requests then delta.last_status else s.last_status;
    unauthorized_count = s.unauthorized_count + delta.unauthorized_count;
    forbidden_count = s.forbidden_count + delta.forbidden_count;
    rate_limit_count = s.rate_limit_count + delta.rate_limit_count;
    other_error_count = s.other_error_count + delta.other_error_count;
    last_error =
        if ltb 0 delta.total_requests
        then normalize_runtime_last_error delta.last_error
        else s.last_error;
  }

  unfoldable pub is_zero : RuntimeStats F → Bool
  is_zero s =
      s.recent_requests == 0
      && s.total_requests == 0
      && s.success_count == 0
      && s.last_status == 0
      && s.unauthorized_count == 0
      && s.forbidden_count == 0
      && s.rate_limit_count == 0
      && s.other_error_count == 0
      && str_eq s.last_error ""
