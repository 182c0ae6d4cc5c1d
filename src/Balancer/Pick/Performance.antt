-- ===== src/Balancer/Pick/Performance.antt =====
-- internal/balancer/performance.go: `pickPerformanceLocked`, the strategies that read the statistics.
pub mod Choice
use jc_proxy.Prelude.{
  ℕ, ◌+◌, Bool, false, ◌&&◌, ◌||◌, List, Option, none, some, ltb, leb, ◌==◌, if◌then◌else◌, length,
  get_elem?, modify,
}
use jc_proxy.Prelude.Int.{pos, ◌-ℤ◌, ltb_ℤ, leb_ℤ, Time, Duration, wrap_int64}
use jc_proxy.Prelude.Float.{FloatOps}
use jc_proxy.Balancer.Handle.{Handle, sample_freshness}
use jc_proxy.Balancer.KeyState.{KeyState, sync_stats_generation}
use jc_proxy.Balancer.Pool.{
  Pool, Strategy, lowest_latency, highest_success, Excluded, is_available, candidates,
}
use jc_proxy.Balancer.Pick.Distance.{distance_from, Best, best_index, scan}

-- `p.keys[probe]` is in range, so its `none` does not occur.
abbrev older : Duration → Option Duration → Bool
older t none = false
older t (some u) = ltb_ℤ t u

-- The variables that `consider` of `pickPerformanceLocked` changes.
pub record Scan (F : Type 0) : Type 0 where
  pub keys : List (KeyState F)
  pub best : Option (Best F)
  pub probe : Option ℕ

module _ {F : Type 0} ⦃fl : FloatOps F⦄ where
  abbrev performance_cost : Strategy → Handle F → F
  performance_cost lowest_latency h = h.latency_cost
  performance_cost highest_success h = h.success_cost
  performance_cost _ h = h.adaptive_cost

  abbrev neutral_cost : Strategy → F
  neutral_cost lowest_latency = fl.lit 2000 1
  neutral_cost highest_success = fl.lit 4 1
  neutral_cost _ = fl.lit 4000 1

  -- An expired cost drifts to the neutral one over five minutes.
  aged : F → F → Duration → F
  aged cost neutral age =
      if leb_ℤ sample_freshness age
      then neutral
      else fl.add cost
          (fl.mul (fl.sub neutral cost) (fl.div (fl.of_int age) (fl.of_int sample_freshness)))

  unfoldable pub scheduling_cost : Strategy → Duration → KeyState F → F
  unfolding aged ◌-ℤ◌ wrap_int64
  scheduling_cost strategy tick k =
      let cost = performance_cost strategy k.stats in
      let age = wrap_int64 (tick -ℤ k.sample_expires) in
      let cost' =
        if leb_ℤ k.sample_expires tick then aged cost (neutral_cost strategy) age else cost in
      fl.mul cost' (fl.of_int (pos (k.inflight + 1)))

  -- A key that a scan may probe: idle, out of its backoff, and short of fresh successes.
  unfoldable pub is_due : Duration → KeyState F → Bool
  is_due tick k =
      k.inflight == 0
      && leb_ℤ k.next_explore tick
      && (ltb k.live_samples 2 || ltb 0 k.failed_samples || leb_ℤ k.sample_expires tick)

  cheaper : ℕ → F → ℕ → Option (Best F) → Option (Best F)
  cheaper i cost gap none = some (record { index = i; score = cost; gap = gap })
  cheaper i cost gap (some b) =
      if fl.less cost b.score || (fl.equal cost b.score && ltb gap b.gap)
      then some (record { index = i; score = cost; gap = gap })
      else some b

  abbrev last_attempt_at : List (KeyState F) → ℕ → Option Duration
  last_attempt_at keys i = elim (get_elem? keys i) [ none ↦ none | some k ↦ some k.last_attempt ]

  probe_with : List (KeyState F) → ℕ → KeyState F → Option ℕ → Option ℕ
  probe_with keys i k none = some i
  probe_with keys i k (some j) =
      if older k.last_attempt (last_attempt_at keys j) then some i else some j

  -- The body of `consider`, of a candidate that is available, with its key.
  consider_key : Pool F → Duration → ℕ → ℕ → KeyState F → Scan F → Scan F
  unfolding cheaper probe_with scheduling_cost is_due sync_stats_generation
  consider_key p tick credit i k0 s =
      let k = sync_stats_generation k0.stats.generation tick k0 in
      let keys' = modify s.keys i (λ x. sync_stats_generation x.stats.generation tick x) in
      record {
        keys = keys';
        best =
            cheaper i (scheduling_cost p.strategy tick k) (distance_from (length keys') p.rr_idx i)
              s.best;
        probe = if leb 10 credit && is_due tick k then probe_with keys' i k s.probe else s.probe;
      }

  consider_found : Pool F → Duration → ℕ → ℕ → Scan F → Option (KeyState F) → Scan F
  unfolding consider_key
  consider_found p tick credit i s none = s
  consider_found p tick credit i s (some k) = consider_key p tick credit i k s

  performance_scan : Pool F → Time → Excluded → Duration → ℕ → List ℕ → Scan F
  unfolding consider_found is_available scan
  performance_scan p now excluded tick credit is =
      scan (λ s. is_available s.keys now excluded)
        (λ i s. consider_found p tick credit i s (get_elem? s.keys i)) is
        (record { keys = p.keys; best = none; probe = none })

  -- What is left after the scan: the probe wins over the best, and takes the credit.
  abbrev conclude : Pool F → ℕ → Scan F → Option ℕ → Option ℕ → Pool F × Option ℕ
  conclude p credit s none probe = (record p { keys = s.keys }, none)
  conclude p credit s (some b) none = (record p { keys = s.keys; credit = credit }, some b)
  conclude p credit s (some b) (some i) = (record p { keys = s.keys; credit = 0 }, some i)

  unfoldable pub pick_performance :
      Duration → Time → Excluded → Option (List ℕ) → Pool F → Pool F × Option ℕ
  unfolding performance_scan
  pick_performance tick now excluded allowed p =
      let credit = if ltb p.credit 10 then p.credit + 1 else p.credit in
      let s = performance_scan p now excluded tick credit (candidates p.keys allowed) in
      conclude p credit s (best_index s.best) s.probe
