-- ===== src/Keystore/RuntimeStats/Deltas.antt =====
-- Deltas of runtime statistics: what `DeltaSince` takes, `ApplyDelta` gives back.
use jc_proxy.Prelude.{some_inj}
use mathlib.Core.Path.{subst}
use jc_proxy.Prelude.{◌≤◌, ◌<◌, ◌≡◌, sym, ◌∙◌, false, some, arith, inl, inr, Bool-cases, ◌↔◌}
use jc_proxy.Prelude.Float.{FloatOps}
use jc_proxy.Keystore.RuntimeStats.{
  RuntimeStats, normalize_runtime_last_error, delta_since, shrinks, difference, apply_delta,
}

-- Each counter of the one is at least that of the other.
pub record Dominates {F : Type 0} (s t : RuntimeStats F) : Type 0 where
  pub total : t.total_requests ≤ s.total_requests
  pub success : t.success_count ≤ s.success_count
  pub unauthorized : t.unauthorized_count ≤ s.unauthorized_count
  pub forbidden : t.forbidden_count ≤ s.forbidden_count
  pub rate_limit : t.rate_limit_count ≤ s.rate_limit_count
  pub other_error : t.other_error_count ≤ s.other_error_count

-- The lifetime counters agree.
pub record SameTotals {F : Type 0} (s t : RuntimeStats F) : Type 0 where
  pub total : s.total_requests ≡ t.total_requests
  pub success : s.success_count ≡ t.success_count
  pub unauthorized : s.unauthorized_count ≡ t.unauthorized_count
  pub forbidden : s.forbidden_count ≡ t.forbidden_count
  pub rate_limit : s.rate_limit_count ≡ t.rate_limit_count
  pub other_error : s.other_error_count ≡ t.other_error_count

module _ {F : Type 0} ⦃fl : FloatOps F⦄ (s prev : RuntimeStats F) where
  shrinks-Dominates : shrinks s prev ≡ false → Dominates s prev
  unfolding shrinks
  shrinks-Dominates h = ground arith

  pub Dominates-shrinks : Dominates s prev → shrinks s prev ≡ false
  unfolding shrinks
  Dominates-shrinks d = ground arith

  pub delta_since-eq : shrinks s prev ≡ false → delta_since s prev ≡ some (difference s prev)
  unfolding delta_since
  delta_since-eq e = rw e

  -- A delta is taken exactly where no lifetime counter fell.
  pub delta_since-Dominates :
      ((d : RuntimeStats F) × (delta_since s prev ≡ some d)) ↔ Dominates s prev
  unfolding delta_since
  delta_since-Dominates = (
    λ (d, h). elim (Bool-cases (shrinks s prev)) [
      | inl e ↦ absurd (ground arith)
      | inr e ↦ shrinks-Dominates e
    ],
    λ d. (difference s prev, rw (Dominates-shrinks d)),
  )

  taken : (d : RuntimeStats F) → delta_since s prev ≡ some d → difference s prev ≡ d
  unfolding delta_since
  taken d h = elim (Bool-cases (shrinks s prev)) [
    | inl e ↦ absurd (ground arith)
    | inr e ↦ some_inj (sym (delta_since-eq e) ∙ h)
  ]

  abbrev GivesBack : RuntimeStats F → Type 0
  GivesBack d = SameTotals (apply_delta prev d) s

  difference-GivesBack : Dominates s prev → GivesBack (difference s prev)
  unfolding difference apply_delta
  difference-GivesBack d = ground arith

  -- A delta that is taken, applied to the statistics that it was taken against, gives every
  -- lifetime counter back.
  pub apply_delta-delta_since :
      (d : RuntimeStats F) → delta_since s prev ≡ some d → SameTotals (apply_delta prev d) s
  apply_delta-delta_since d h =
      subst GivesBack (taken d h) (difference-GivesBack (delta_since-Dominates.0 (d, h)))

  abbrev Reports : RuntimeStats F → Type 0
  Reports d =
      ((apply_delta prev d).last_status ≡ s.last_status)
      × ((apply_delta prev d).last_error ≡ normalize_runtime_last_error s.last_error)

  difference-Reports : prev.total_requests < s.total_requests → Reports (difference s prev)
  unfolding difference apply_delta
  difference-Reports h = ground arith

  -- A delta that is taken across at least one request, applied to the statistics that it was taken
  -- against, gives the last status back, and the last error in normal form.
  pub apply_delta-diagnostics :
      (d : RuntimeStats F)
      → delta_since s prev ≡ some d
      → prev.total_requests < s.total_requests
      → ((apply_delta prev d).last_status ≡ s.last_status)
        × ((apply_delta prev d).last_error ≡ normalize_runtime_last_error s.last_error)
  apply_delta-diagnostics d h more = subst Reports (taken d h) (difference-Reports more)
