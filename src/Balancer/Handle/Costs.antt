-- ===== src/Balancer/Handle/Costs.antt =====
-- internal/balancer/performance.go: the scheduling costs of a key, from its window or its summary.
use jc_proxy.Prelude.{ℕ, ◌+◌, ◌&&◌, List, [], ◌∷◌, ltb, ◌==◌, if◌then◌else◌, take}
use jc_proxy.Prelude.Int.{pos, leb_ℤ, Duration}
use jc_proxy.Prelude.Float.{FloatOps}
use jc_proxy.Balancer.Handle.Defs.{Handle, RequestSample}

module _ {F : Type 0} ⦃fl : FloatOps F⦄ where
  abbrev pub to_ms : Duration → F
  to_ms d = fl.div (fl.of_int d) (fl.of_int (pos 1000000))

  unfoldable pub mean : F → ℕ → F
  mean total n = if ltb 0 n then fl.div total (fl.of_int (pos n)) else total

  -- The successful timings: their number and sum, for the header and for the whole response.
  sum_headers : ℕ → F → List RequestSample → F
  unfolding mean
  sum_headers n total [] = if ltb 0 n then fl.div total (fl.of_int (pos n)) else fl.lit 1000 1
  sum_headers n total (s ∷ ss) =
      let counts = s.success && leb_ℤ (pos 0) s.header in
      sum_headers (if counts then n + 1 else n)
        (if counts then fl.add total (to_ms s.header) else total) ss

  sum_fulls : F → ℕ → F → List RequestSample → F
  sum_fulls header n total [] = if ltb 0 n then fl.div total (fl.of_int (pos n)) else header
  sum_fulls header n total (s ∷ ss) =
      let counts = s.success && leb_ℤ (pos 0) s.full in
      sum_fulls header (if counts then n + 1 else n)
        (if counts then fl.add total (to_ms s.full) else total) ss

  header_prior : Handle F → F
  unfolding sum_headers
  header_prior h =
      let s = h.stats.recent in
      if ltb 0 h.sample_count
      then sum_headers 0 (fl.lit 0 1) (take h.sample_count h.window)
      else if s.recent_requests == s.recent_success_count && ltb 0 s.header_samples
      then s.avg_header_ms
      else fl.lit 1000 1

  full_prior : Handle F → F → F
  unfolding sum_fulls
  full_prior h header =
      let s = h.stats.recent in
      if ltb 0 h.sample_count
      then sum_fulls header 0 (fl.lit 0 1) (take h.sample_count h.window)
      else if s.recent_requests == s.recent_success_count && ltb 0 s.response_samples
      then s.avg_response_ms
      else header

  -- Storing and loading the bits of a float gives it back, so a cost is kept as a float.
  store_costs : F → F → F → Handle F → Handle F
  store_costs p header full h = record h {
    latency_cost = fl.div header p;
    success_cost = fl.div (fl.lit 1 1) (fl.mul p p);
    adaptive_cost =
        fl.div (fl.add (fl.mul (fl.lit 7 10) header) (fl.mul (fl.lit 3 10) full)) (fl.mul p p);
  }

  unfoldable pub update_costs : Handle F → Handle F
  unfolding header_prior full_prior store_costs
  update_costs h =
      let s = h.stats.recent in
      let penalty = fl.lit 1000000000000 1 in
      let p =
        fl.div (fl.of_int (pos (s.recent_success_count + 1)))
          (fl.of_int (pos (s.recent_requests + 2))) in
      let header = header_prior h in
      let full = full_prior h header in
      let header' = fl.fmax (fl.lit 1 1) (fl.fmin header (fl.lit 3600000 1)) in
      let full' = fl.fmax header' (fl.fmin full (fl.lit 3600000 1)) in
      if ltb 0 s.recent_requests && s.recent_success_count == 0
      then record h { latency_cost = penalty; success_cost = penalty; adaptive_cost = penalty }
      else store_costs p header' full' h
