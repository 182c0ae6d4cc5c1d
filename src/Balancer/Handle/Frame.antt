-- ===== src/Balancer/Handle/Frame.antt =====
-- What the operations on a statistics handle leave alone.
use jc_proxy.Prelude.{◌≡◌, refl, ap, Bool, ◌&&◌, ltb, ◌==◌, inl, inr, Bool-cases, arith}
use jc_proxy.Prelude.Int.{Time, Duration}
use jc_proxy.Prelude.Float.{FloatOps}
use jc_proxy.Balancer.Handle.Defs.{Handle, RequestSample}
use jc_proxy.Balancer.Handle.Costs.{update_costs}
use jc_proxy.Balancer.Handle.Window.{record_sample, stage_sample, sample_of}

-- The lifetime counters and the last result.
pub record SameCounters {F : Type 0} (h g : Handle F) : Type 0 where
  pub total : h.stats.total_requests ≡ g.stats.total_requests
  pub mirror : h.total_requests ≡ g.total_requests
  pub success : h.stats.success_count ≡ g.stats.success_count
  pub unauthorized : h.stats.unauthorized_count ≡ g.stats.unauthorized_count
  pub forbidden : h.stats.forbidden_count ≡ g.stats.forbidden_count
  pub rate_limit : h.stats.rate_limit_count ≡ g.stats.rate_limit_count
  pub other_error : h.stats.other_error_count ≡ g.stats.other_error_count
  pub last_status : h.stats.last_status ≡ g.stats.last_status
  pub last_error : h.stats.last_error ≡ g.stats.last_error

pub SameCounters-trans :
    {F : Type 0} (h g f : Handle F) → SameCounters h g → SameCounters g f → SameCounters h f
SameCounters-trans h g f a b = ground arith

module _ {F : Type 0} ⦃fl : FloatOps F⦄ where
  -- All but the three costs.
  pub record SameData (h g : Handle F) : Type 0 where
    pub stats : h.stats ≡ g.stats
    pub total_requests : h.total_requests ≡ g.total_requests
    pub window : h.window ≡ g.window
    pub next_sample : h.next_sample ≡ g.next_sample
    pub sample_count : h.sample_count ≡ g.sample_count
    pub last_sample : h.last_sample ≡ g.last_sample
    pub generation : h.generation ≡ g.generation

  pub update_costs-SameData : (h : Handle F) → SameData (update_costs h) h
  unfolding update_costs
  update_costs-SameData h =
      elim (Bool-cases (ltb 0 h.stats.recent_requests && h.stats.recent_success_count == 0)) [
        | inl e ↦ rw e (record {
          stats = refl;
          total_requests = refl;
          window = refl;
          next_sample = refl;
          sample_count = refl;
          last_sample = refl;
          generation = refl;
        })
        | inr e ↦ rw e (record {
          stats = refl;
          total_requests = refl;
          window = refl;
          next_sample = refl;
          sample_count = refl;
          last_sample = refl;
          generation = refl;
        })
      ]

  pub SameData-SameCounters : (h g : Handle F) → SameData h g → SameCounters h g
  SameData-SameCounters h g d = record {
    total = ap (λ s. s.total_requests) d.stats;
    mirror = d.total_requests;
    success = ap (λ s. s.success_count) d.stats;
    unauthorized = ap (λ s. s.unauthorized_count) d.stats;
    forbidden = ap (λ s. s.forbidden_count) d.stats;
    rate_limit = ap (λ s. s.rate_limit_count) d.stats;
    other_error = ap (λ s. s.other_error_count) d.stats;
    last_status = ap (λ s. s.last_status) d.stats;
    last_error = ap (λ s. s.last_error) d.stats;
  }

  stage_sample-SameCounters :
      (s : RequestSample) (now : Time) (h : Handle F) → SameCounters (stage_sample s now h) h
  unfolding stage_sample
  stage_sample-SameCounters s now h = ground arith

  pub record_sample-SameCounters :
      (header full : Duration) (success : Bool) (now : Time) (h : Handle F)
      → SameCounters (record_sample header full success now h) h
  unfolding record_sample
  record_sample-SameCounters header full success now h =
      let staged = stage_sample (sample_of header full success) now h in
      let d = SameData-SameCounters _ staged (update_costs-SameData staged) in
      let c = stage_sample-SameCounters (sample_of header full success) now h in
      SameCounters-trans _ staged h d c
