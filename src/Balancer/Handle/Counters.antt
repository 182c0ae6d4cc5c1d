-- ===== src/Balancer/Handle/Counters.antt =====
-- internal/balancer/runtime_stats.go: the lifetime counters, each locked section as one function.
use Prim.Native.String.{String}
use jc_proxy.Prelude.{ℕ, ◌+◌, Bool, ◌||◌, leb, ◌==◌, if◌then◌else◌}
use jc_proxy.Keystore.RuntimeStats.{RuntimeStats, normalize_runtime_last_error}
use jc_proxy.Balancer.Handle.Defs.{Handle}

module _ {F : Type 0} where
  unfoldable pub record_success : Bool → Handle F → Handle F
  record_success preserve_last h =
      let s = h.stats in
      let s' = record s {
        total_requests = s.total_requests + 1;
        success_count = s.success_count + 1;
        last_status = if preserve_last then s.last_status else 200;
        last_error = if preserve_last then s.last_error else "";
      } in
      record h { stats = s'; total_requests = s'.total_requests }

  unfoldable pub count_status : ℕ → RuntimeStats F → RuntimeStats F
  count_status status s =
      if status == 401
      then record s { unauthorized_count = s.unauthorized_count + 1 }
      else if status == 403
      then record s { forbidden_count = s.forbidden_count + 1 }
      else if status == 429
      then record s { rate_limit_count = s.rate_limit_count + 1 }
      else if leb 400 status || status == 0
      then record s { other_error_count = s.other_error_count + 1 }
      else s

  unfoldable pub record_error : ℕ → String → Bool → Handle F → Handle F
  unfolding count_status
  record_error status reason preserve_last h =
      let s = h.stats in
      let s' = record s {
        total_requests = s.total_requests + 1;
        last_status = if preserve_last then s.last_status else status;
        last_error = if preserve_last then s.last_error else normalize_runtime_last_error reason;
      } in
      let s'' = count_status status s' in
      record h { stats = s''; total_requests = s''.total_requests }

  unfoldable pub record_interrupted : Handle F → Handle F
  record_interrupted h =
      let s = h.stats in
      let s' = record s { total_requests = s.total_requests + 1 } in
      record h { stats = s'; total_requests = s'.total_requests }

  unfoldable pub clear_last_error : Handle F → Handle F
  clear_last_error h = record h { stats = record h.stats { last_error = "" } }
