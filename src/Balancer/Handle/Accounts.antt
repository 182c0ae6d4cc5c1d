-- ===== src/Balancer/Handle/Accounts.antt =====
-- The lifetime counters of a statistics handle: every attempt is counted once, and the part of the
-- total that no class claims is the interrupted count.
use Prim.Native.String.{String}
use jc_proxy.Prelude.{
  ℕ, ◌+◌, ◌≤◌, ◌≡◌, Bool-cases, Bool, max, true, ◌⊎◌, inl, inr, arith, leb, ◌==◌, ◌||◌,
}
use jc_proxy.Prelude.Int.{Time, Duration}
use jc_proxy.Prelude.Float.{FloatOps}
use jc_proxy.Keystore.RuntimeStats.{RuntimeStats, interrupted_count}
use jc_proxy.Keystore.RuntimeStats.Deltas.{Dominates}
use jc_proxy.Balancer.Handle.Defs.{Handle}
use jc_proxy.Balancer.Handle.Counters.{
  record_success, record_error, record_interrupted, clear_last_error,
}
use jc_proxy.Balancer.Handle.Window.{record_sample}
use jc_proxy.Balancer.Handle.Lifecycle.{
  merge_recent, merge_baseline, new_handle, larger, reset, zero_handle, cleared,
}
use jc_proxy.Balancer.Handle.Frame.{
  SameCounters, record_sample-SameCounters, update_costs-SameData, SameData-SameCounters,
  SameCounters-trans,
}

larger-eq : (b n : ℕ) → larger b n ≡ max b n
unfolding larger
larger-eq b n = ground arith

module _ {F : Type 0} where
  abbrev pub classified : RuntimeStats F → ℕ
  classified s =
      s.success_count + s.unauthorized_count + s.forbidden_count + s.rate_limit_count
      + s.other_error_count

  pub record IsCounted (h : Handle F) : Type 0 where
    -- The atomic copy that selection reads agrees with the statistics.
    pub mirror : h.total_requests ≡ h.stats.total_requests
    pub accounted : classified h.stats ≤ h.stats.total_requests

  SameCounters-IsCounted : (h g : Handle F) → SameCounters h g → IsCounted g → IsCounted h
  SameCounters-IsCounted h g s v = omega arith

  record_success-IsCounted :
      (preserve : Bool) (h : Handle F) → IsCounted h → IsCounted (record_success preserve h)
  unfolding record_success
  record_success-IsCounted preserve h v = omega arith

  record_error-IsCounted :
      (status : ℕ) (reason : String) (preserve : Bool) (h : Handle F)
      → IsCounted h
      → IsCounted (record_error status reason preserve h)
  unfolding record_error
  record_error-IsCounted status reason preserve h v = ground arith

  record_interrupted-IsCounted : (h : Handle F) → IsCounted h → IsCounted (record_interrupted h)
  unfolding record_interrupted
  record_interrupted-IsCounted h v = omega arith

  clear_last_error-IsCounted : (h : Handle F) → IsCounted h → IsCounted (clear_last_error h)
  unfolding clear_last_error
  clear_last_error-IsCounted h v = omega arith

-- The operations on a handle.
pub data Change (F : Type 0) : Type 0 where
  sample : Duration → Duration → Bool → Time → Change F
  succeed : Bool → Change F
  fail : ℕ → String → Bool → Change F
  interrupt : Change F
  clear : Change F
  merge : RuntimeStats F → Change F
  restart : Change F

module _ {F : Type 0} ⦃fl : FloatOps F⦄ where
  abbrev pub change : Change F → Handle F → Handle F
  change (sample header full ok now) h = record_sample header full ok now h
  change (succeed preserve) h = record_success preserve h
  change (fail status reason preserve) h = record_error status reason preserve h
  change interrupt h = record_interrupted h
  change clear h = clear_last_error h
  change (merge s) h = merge_baseline s h
  change restart h = reset h

  -- Statistics that are merged have classes within their total, and all their counters are at least
  -- those of the handle, or at most.
  abbrev pub Fits : Change F → Handle F → Type 0
  Fits (merge s) h = (classified s ≤ s.total_requests) × (Dominates s h.stats ⊎ Dominates h.stats s)
  Fits _ h = Unit

  abbrev seeded : RuntimeStats F → Handle F → Handle F
  seeded s h = record h { stats = record h.stats { recent = s.recent } }

  merge_recent-SameCounters :
      (s : RuntimeStats F) (h : Handle F) → SameCounters (merge_recent s h) h
  unfolding merge_recent
  merge_recent-SameCounters s h = elim (Bool-cases (h.sample_count == 0)) [
    | inl e ↦ rw e (
        SameCounters-trans _ _ h (SameData-SameCounters _ _ (update_costs-SameData (seeded s h)))
          (ground arith))
    | inr e ↦ rw e (ground arith)
  ]

  -- Merging persisted statistics whose classes stay within their total keeps the counters of a
  -- handle consistent, if all counters of the one are at least those of the other.
  pub merge_baseline-IsCounted :
      (s : RuntimeStats F) (h : Handle F)
      → classified s ≤ s.total_requests
      → IsCounted h
      → Dominates s h.stats ⊎ Dominates h.stats s
      → IsCounted (merge_baseline s h)
  unfolding merge_baseline
  merge_baseline-IsCounted s h k v d =
      let c = merge_recent-SameCounters s h in
      record {
        mirror = ground (arith, larger-eq s.total_requests (merge_recent s h).stats.total_requests);
        accounted = elim d [ inl e ↦ omega (arith, larger-eq) | inr e ↦ omega (arith, larger-eq) ];
      }

  reset-IsCounted : (h : Handle F) → IsCounted (reset h)
  unfolding reset
  reset-IsCounted h =
      let c = SameData-SameCounters _ (cleared h) (update_costs-SameData (cleared h)) in omega arith

  -- Every operation on a handle with consistent counters keeps them consistent: the atomic copy of
  -- the total is the total, and the classes of attempts stay within it. For MergeBaseline, the
  -- statistics that it merges have classes within their total, and all their counters are at least
  -- those of the handle, or all are at most those.
  pub change-IsCounted :
      (c : Change F) (h : Handle F) → Fits c h → IsCounted h → IsCounted (change c h)
  change-IsCounted (sample header full ok now) h f v =
      SameCounters-IsCounted _ h (record_sample-SameCounters header full ok now h) v
  change-IsCounted (succeed preserve) h f v = record_success-IsCounted preserve h v
  change-IsCounted (fail status reason preserve) h f v =
      record_error-IsCounted status reason preserve h v
  change-IsCounted interrupt h f v = record_interrupted-IsCounted h v
  change-IsCounted clear h f v = clear_last_error-IsCounted h v
  change-IsCounted (merge s) h (k, d) v = merge_baseline-IsCounted s h k v d
  change-IsCounted restart h f v = reset-IsCounted h

  -- Of a handle with consistent counters, an interruption adds one to the interrupted count. A
  -- success leaves it, and so does an error whose status is 0 or at least 400.
  pub interrupted_count-steps :
      (status : ℕ) (reason : String) (preserve : Bool) (h : Handle F)
      → IsCounted h
      → (leb 400 status || status == 0) ≡ true
      → (interrupted_count (record_interrupted h).stats ≡ interrupted_count h.stats + 1)
        × (interrupted_count (record_success preserve h).stats ≡ interrupted_count h.stats)
        × (interrupted_count (record_error status reason preserve h).stats
            ≡ interrupted_count h.stats)
  unfolding record_interrupted record_success record_error interrupted_count
  interrupted_count-steps status reason preserve h v e = (omega arith, omega arith, ground arith)

  -- A handle made from persisted statistics whose classes stay within their total starts with
  -- consistent counters.
  pub new_handle-IsCounted :
      (s : RuntimeStats F) → classified s ≤ s.total_requests → IsCounted (new_handle s)
  unfolding new_handle
  new_handle-IsCounted s h =
      merge_baseline-IsCounted s zero_handle h (omega arith) (inl (omega arith))
