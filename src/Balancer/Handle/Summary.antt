-- ===== src/Balancer/Handle/Summary.antt =====
-- The summary that a recording leaves counts the samples of the ring.
use mathlib.Core.Path.{ap₂}
use jc_proxy.Prelude.{
  ℕ, zero, suc, ◌+◌, ◌<◌, ◌≡◌, refl, sym, ap, ◌∙◌, Bool, List, [], ◌∷◌, arith, if◌then◌else◌,
  length, take,
}
use native.Mathlib.Decide.{dec_lt}
use jc_proxy.Prelude.Int.{Time, Duration}
use jc_proxy.Prelude.Float.{FloatOps}
use jc_proxy.Keystore.RuntimeStats.{RecentStats, zero_recent}
use jc_proxy.Balancer.Handle.Defs.{Handle, RequestSample}
use jc_proxy.Balancer.Handle.Window.{
  record_sample, stage_sample, sample_of, push_sample, expire, tally, tally_all,
}
use jc_proxy.Balancer.Handle.Frame.{update_costs-SameData}
use jc_proxy.Balancer.Handle.Ring.{IsRing, RingOf, read_back, recent_samples, record_sample-recent}

abbrev pub successes : List RequestSample → ℕ
successes [] = 0
successes (s ∷ ss) = (if s.success then 1 else 0) + successes ss

successes-full :
    (w : List RequestSample) (next : ℕ)
    → length w ≡ 5
    → next < 5
    → successes (take 5 w) ≡ successes (read_back w next 5)
unfolding read_back
successes-full (a ∷ b ∷ c ∷ d ∷ e ∷ []) zero h k = omega arith
successes-full (a ∷ b ∷ c ∷ d ∷ e ∷ []) (suc zero) h k = omega arith
successes-full (a ∷ b ∷ c ∷ d ∷ e ∷ []) (suc (suc zero)) h k = omega arith
successes-full (a ∷ b ∷ c ∷ d ∷ e ∷ []) (suc (suc (suc zero))) h k = omega arith
successes-full (a ∷ b ∷ c ∷ d ∷ e ∷ []) (suc (suc (suc (suc zero)))) h k = omega arith
successes-full w next h k = absurd (omega arith)

successes-filling :
    (w : List RequestSample) (n : ℕ)
    → length w ≡ 5
    → n < 5
    → successes (take n w) ≡ successes (read_back w n n)
unfolding read_back
successes-filling (a ∷ b ∷ c ∷ d ∷ e ∷ []) zero h k = omega arith
successes-filling (a ∷ b ∷ c ∷ d ∷ e ∷ []) (suc zero) h k = omega arith
successes-filling (a ∷ b ∷ c ∷ d ∷ e ∷ []) (suc (suc zero)) h k = omega arith
successes-filling (a ∷ b ∷ c ∷ d ∷ e ∷ []) (suc (suc (suc zero))) h k = omega arith
successes-filling (a ∷ b ∷ c ∷ d ∷ e ∷ []) (suc (suc (suc (suc zero)))) h k = omega arith
successes-filling w n h k = absurd (omega arith)

successes-ring :
    (w : List RequestSample) (next count : ℕ)
    → IsRing w next count
    → successes (take count w) ≡ successes (read_back w next count)
successes-ring w next count v = elim (dec_lt count 5) [
  | yes low ↦ let e : next ≡ count = v.filling low in rw e (successes-filling w count v.size low)
  | no full ↦
      let e : count ≡ 5 = omega (arith, v.count_in) in rw e (successes-full w next v.size v.next_in)
]

module _ {F : Type 0} ⦃fl : FloatOps F⦄ where
  tally_all-counts :
      (r : RecentStats F) (ss : List RequestSample)
      → ((tally_all r ss).recent_success_count ≡ r.recent_success_count + successes ss)
        × ((tally_all r ss).recent_requests ≡ r.recent_requests)
  unfolding tally_all
  tally_all-counts r [] = (omega arith, refl)
  tally_all-counts r (s ∷ ss) = ground (arith, tally_all-counts (tally r s) ss)

  staged-counts :
      (s : RequestSample) (now : Time) (h : Handle F)
      → let g = stage_sample s now h in
        (g.stats.recent_success_count ≡ successes (take g.sample_count g.window))
        × (g.stats.recent_requests ≡ g.sample_count)
  unfolding stage_sample
  staged-counts s now h =
      let g = push_sample now s (expire now h) in
      let t =
        tally_all-counts (record zero_recent { recent_requests = g.sample_count })
          (take g.sample_count g.window) in
      (omega arith, t.1)

  -- After a recording into a ring in order, the summary counts exactly the samples of the ring and
  -- the successes among them.
  pub record_sample-summary :
      (header full : Duration) (success : Bool) (now : Time) (h : Handle F)
      → RingOf h
      → let g = record_sample header full success now h in
        (g.stats.recent_requests ≡ g.sample_count)
        × (g.stats.recent_success_count ≡ successes (recent_samples g))
  unfolding record_sample recent_samples
  record_sample-summary header full success now h v =
      let s = sample_of header full success in
      let g = record_sample header full success now h in
      let d = update_costs-SameData (stage_sample s now h) in
      let n = staged-counts s now h in
      let ring = (record_sample-recent header full success now h v).0 in
      (
        ap (λ x. x.recent_requests) d.stats ∙ n.1 ∙ sym d.sample_count,
        ap (λ x. x.recent_success_count) d.stats
            ∙ n.0
            ∙ ap₂ (λ k w. successes (take k w)) (sym d.sample_count) (sym d.window)
            ∙ successes-ring g.window g.next_sample g.sample_count ring,
      )
