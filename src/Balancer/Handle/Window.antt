-- ===== src/Balancer/Handle/Window.antt =====
-- internal/balancer/performance.go: the window of the last five attempts, and its summary.
use jc_proxy.Prelude.{ℕ, ◌+◌, ◌%◌, Bool, not, ◌&&◌, List, [], ◌∷◌, ltb, if◌then◌else◌, set, take}
use jc_proxy.Prelude.Int.{pos, leb_ℤ, Time, Duration, is_zero_time, time_sub}
use jc_proxy.Prelude.Float.{FloatOps}
use jc_proxy.Keystore.RuntimeStats.{RecentStats, zero_recent}
use jc_proxy.Balancer.Handle.Defs.{
  Handle, RequestSample, recent_window_size, failed_sample_penalty, sample_freshness,
}
use jc_proxy.Balancer.Handle.Costs.{to_ms, mean, update_costs}

-- A failed attempt is recorded with the fixed penalty for both timings.
abbrev pub sample_of : Duration → Duration → Bool → RequestSample
sample_of header full success = record {
  header = if success then header else failed_sample_penalty;
  full = if success then full else failed_sample_penalty;
  success = success;
}

module _ {F : Type 0} ⦃fl : FloatOps F⦄ where
  -- One round of the loop over the window; the two averages hold sums until the loop ends.
  abbrev pub tally : RecentStats F → RequestSample → RecentStats F
  tally r s = record {
    recent_requests = r.recent_requests;
    recent_success_count = if s.success then r.recent_success_count + 1 else r.recent_success_count;
    header_samples = if leb_ℤ (pos 0) s.header then r.header_samples + 1 else r.header_samples;
    avg_header_ms =
        if leb_ℤ (pos 0) s.header then fl.add r.avg_header_ms (to_ms s.header) else r.avg_header_ms;
    response_samples = if leb_ℤ (pos 0) s.full then r.response_samples + 1 else r.response_samples;
    avg_response_ms =
        if leb_ℤ (pos 0) s.full then fl.add r.avg_response_ms (to_ms s.full) else r.avg_response_ms;
  }

  unfoldable pub tally_all : RecentStats F → List RequestSample → RecentStats F
  tally_all r [] = r
  tally_all r (s ∷ ss) = tally_all (tally r s) ss

  unfoldable pub average : RecentStats F → RecentStats F
  unfolding mean
  average r = record r {
    avg_header_ms = mean r.avg_header_ms r.header_samples;
    avg_response_ms = mean r.avg_response_ms r.response_samples;
  }

  -- The summary of `window[:sampleCount]`.
  unfoldable pub summarize : ℕ → List RequestSample → RecentStats F
  unfolding tally_all average
  summarize count samples =
      average (tally_all (record zero_recent { recent_requests = count }) (take count samples))

  -- A window that has seen nothing for five minutes starts again.
  abbrev pub is_stale : Time → Handle F → Bool
  is_stale now h =
      not (is_zero_time h.last_sample) && leb_ℤ sample_freshness (time_sub now h.last_sample)

  abbrev pub expire : Time → Handle F → Handle F
  expire now h = if is_stale now h then record h { sample_count = 0; next_sample = 0 } else h

  abbrev pub push_sample : Time → RequestSample → Handle F → Handle F
  push_sample now s h = record h {
    last_sample = now;
    window = set h.window h.next_sample s;
    next_sample = (h.next_sample + 1) % recent_window_size;
    sample_count =
        if ltb h.sample_count recent_window_size then h.sample_count + 1 else h.sample_count;
  }

  abbrev summarized : Handle F → Handle F
  unfolding summarize
  summarized h = record h { stats = record h.stats { recent = summarize h.sample_count h.window } }

  -- All of `recordSampleLocked` but its last step.
  unfoldable pub stage_sample : RequestSample → Time → Handle F → Handle F
  unfolding summarized
  stage_sample s now h = summarized (push_sample now s (expire now h))

  -- `recordSampleLocked`; the generation that it returns is the handle's field.
  unfoldable pub record_sample : Duration → Duration → Bool → Time → Handle F → Handle F
  unfolding stage_sample
  record_sample header full success now h =
      update_costs (stage_sample (sample_of header full success) now h)
