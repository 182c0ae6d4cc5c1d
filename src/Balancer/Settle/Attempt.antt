-- ===== src/Balancer/Settle/Attempt.antt =====
-- What `CompleteAttempt` of internal/balancer/attempt_result.go does to the key of the attempt.
use jc_proxy.Prelude.{
  ℕ, ◌+◌, ◌-◌, ◌≡◌, refl, ap, ◌∙◌, Bool, true, false, Option, none, some, ◌↔◌, arith,
}
use jc_proxy.Prelude.Int.{ℤ, Duration}
use jc_proxy.Prelude.Float.{FloatOps}
use jc_proxy.Balancer.Handle.{Handle, record_sample}
use jc_proxy.Balancer.Handle.Frame.{record_sample-SameCounters}
use jc_proxy.Balancer.KeyState.{KeyState, is_current, drop_inflight, note_sample}
use jc_proxy.Balancer.KeyState.Health.{health, health-sync}
use jc_proxy.Balancer.Settle.{
  AttemptAction, interrupted, success, observe, cooldown, disable_key, unknown, AttemptResult,
  Clock, is_success, sample_attempt, count_attempt, health_after, finish_attempt, dispatch,
  settle_attempt,
}

-- Any of the five actions that the source names.
abbrev pub is_known : AttemptAction → Bool
is_known (unknown _) = false
is_known _ = true

module _ {F : Type 0} ⦃fl : FloatOps F⦄ (c : Clock) (r : AttemptResult) where
  note-health :
      (g : ℕ) (tick : Duration) (ok : Bool) (k : KeyState F)
      → health (note_sample g tick ok k) ≡ health k
  unfolding note_sample
  note-health g tick ok k = health-sync g tick k

  pub sample_health :
      (ok : Bool) (k : KeyState F)
      → health (sample_attempt c r ok k) ≡ record (health k) {
        stats = record_sample r.header_elapsed r.full_elapsed ok c.now k.stats;
      }
  unfolding sample_attempt
  sample_health ok k = note-health _ _ ok _

  sample-inflight : (ok : Bool) (k : KeyState F) → (sample_attempt c r ok k).inflight ≡ k.inflight
  sample-inflight ok k = ap (λ h. h.inflight) (sample_health ok k)

  health_after-inflight :
      (a : AttemptAction) (k : KeyState F) → (health_after c r a k).0.inflight ≡ k.inflight
  unfolding health_after
  health_after-inflight interrupted k = refl
  health_after-inflight _ k = refl

  dispatch-inflight :
      (a : AttemptAction) (current : Bool) (k : KeyState F)
      → (dispatch a c r current k).0.inflight ≡ k.inflight
  unfolding dispatch
  dispatch-inflight interrupted current k = refl
  dispatch-inflight (unknown _) current k = refl
  dispatch-inflight success true k = sample-inflight true k
  dispatch-inflight success false k = refl
  dispatch-inflight _ true k = sample-inflight false k
  dispatch-inflight _ false k = refl

  -- A settled attempt is no longer under way, whatever its result.
  pub settle-inflight :
      (version : ℤ) (k : KeyState F) → (settle_attempt c version r k).0.inflight ≡ k.inflight - 1
  unfolding settle_attempt
  settle-inflight version k =
      dispatch-inflight r.action (is_current (some version) (drop_inflight k)) (drop_inflight k)
      ∙ ground arith

module _ {F : Type 0} where
  pub drop-is_current :
      (expected : Option ℤ) (k : KeyState F)
      → is_current expected (drop_inflight k) ≡ is_current expected k
  unfolding is_current drop_inflight
  drop-is_current none k = ground arith
  drop-is_current (some v) k = ground arith

  count_attempt-total :
      (r : AttemptResult) (ok preserve : Bool) (h : Handle F)
      → ((count_attempt r ok preserve h).stats.total_requests ≡ h.stats.total_requests + 1)
        × ((count_attempt r ok preserve h).total_requests ≡ h.stats.total_requests + 1)
  unfolding count_attempt
  count_attempt-total r true preserve h = (refl, refl)
  count_attempt-total r false preserve h = ground arith

  -- Everything of a key but the number of its attempts and the lifetime counters.
  pub record Untouched (k k' : KeyState F) : Type 0 where
    pub status : k'.status ≡ k.status
    pub disable_reason : k'.disable_reason ≡ k.disable_reason
    pub disabled_at : k'.disabled_at ≡ k.disabled_at
    pub disabled_by : k'.disabled_by ≡ k.disabled_by
    pub version : k'.version ≡ k.version
    pub failures : k'.failures ≡ k.failures
    pub cooldown_until : k'.cooldown_until ≡ k.cooldown_until
    pub cooldown_level : k'.cooldown_level ≡ k.cooldown_level
    pub retired : k'.retired ≡ k.retired
    pub last_attempt : k'.last_attempt ≡ k.last_attempt
    pub sample_expires : k'.sample_expires ≡ k.sample_expires
    pub next_explore : k'.next_explore ≡ k.next_explore
    pub live_samples : k'.live_samples ≡ k.live_samples
    pub failed_samples : k'.failed_samples ≡ k.failed_samples
    pub last_status : k'.stats.stats.last_status ≡ k.stats.stats.last_status
    pub last_error : k'.stats.stats.last_error ≡ k.stats.stats.last_error
    pub recent : k'.stats.stats.recent ≡ k.stats.stats.recent
    pub window : k'.stats.window ≡ k.stats.window

module _ {F : Type 0} ⦃fl : FloatOps F⦄ (c : Clock) (r : AttemptResult) where
  health_after-stats :
      (a : AttemptAction) (k : KeyState F) → (health_after c r a k).0.stats ≡ k.stats
  unfolding health_after
  health_after-stats interrupted k = refl
  health_after-stats _ k = refl

  sampled-total :
      (ok : Bool) (k : KeyState F)
      → (sample_attempt c r ok k).stats.stats.total_requests ≡ k.stats.stats.total_requests
  sampled-total ok k =
      ap (λ h. h.stats.stats.total_requests) (sample_health c r ok k)
      ∙ (record_sample-SameCounters r.header_elapsed r.full_elapsed ok c.now k.stats).total

  abbrev pub Counted : KeyState F → KeyState F → Type 0
  Counted k k' =
      (k'.stats.stats.total_requests ≡ k.stats.stats.total_requests + 1)
      × (k'.stats.total_requests ≡ k.stats.stats.total_requests + 1)

  finish-Counted :
      (a : AttemptAction) (current : Bool) (k : KeyState F)
      → Counted k (finish_attempt a c r current k).0
  unfolding finish_attempt
  finish-Counted a false k = count_attempt-total r (is_success a) true k.stats
  finish-Counted a true k =
      let s = sample_attempt c r (is_success a) k in
      let n = count_attempt-total r (is_success a) false s.stats in
      let e = sampled-total (is_success a) k in
      rw (health_after-stats a _) (omega arith, omega arith)

  pub dispatch-Counted :
      (a : AttemptAction) (current : Bool) (k : KeyState F)
      → is_known a ≡ true
      → Counted k (dispatch a c r current k).0
  unfolding dispatch
  dispatch-Counted interrupted current k h = (refl, refl)
  dispatch-Counted (unknown _) current k h = cc
  dispatch-Counted success current k h = finish-Counted success current k
  dispatch-Counted observe current k h = finish-Counted observe current k
  dispatch-Counted cooldown current k h = finish-Counted cooldown current k
  dispatch-Counted disable_key current k h = finish-Counted disable_key current k

  count_attempt-obsolete :
      (ok : Bool) (k : KeyState F)
      → Untouched k (record k { stats = count_attempt r ok true k.stats })
  unfolding count_attempt
  count_attempt-obsolete true k = ground arith
  count_attempt-obsolete false k = ground arith

  pub dispatch-obsolete :
      (a : AttemptAction) (k : KeyState F)
      → Untouched k (dispatch a c r false k).0 × ((dispatch a c r false k).1 ≡ false)
  unfolding dispatch
  dispatch-obsolete interrupted k = (ground arith, refl)
  dispatch-obsolete (unknown _) k = (ground arith, refl)
  dispatch-obsolete success k = (count_attempt-obsolete true k, refl)
  dispatch-obsolete _ k = (count_attempt-obsolete false k, refl)

  pub dispatch-authorizes :
      (a : AttemptAction) (current : Bool) (k : KeyState F)
      → ((dispatch a c r current k).1 ≡ true) ↔ ((current ≡ true) × (a ≡ disable_key))
  unfolding dispatch
  dispatch-authorizes interrupted current k = ((λ h. cc), λ h. cc)
  dispatch-authorizes (unknown _) current k = ((λ h. cc), λ h. cc)
  dispatch-authorizes success true k = grind arith
  dispatch-authorizes success false k = grind arith
  dispatch-authorizes observe true k = grind arith
  dispatch-authorizes observe false k = grind arith
  dispatch-authorizes cooldown true k = grind arith
  dispatch-authorizes cooldown false k = grind arith
  dispatch-authorizes disable_key true k = ((λ h. (refl, refl)), λ h. refl)
  dispatch-authorizes disable_key false k = grind arith

module _ {F : Type 0} where
  pub drop-stats : (k : KeyState F) → (drop_inflight k).stats ≡ k.stats
  unfolding drop_inflight
  drop-stats k = ground arith

  pub drop-Untouched : (k : KeyState F) → Untouched k (drop_inflight k)
  unfolding drop_inflight
  drop-Untouched k = ground arith

  pub Untouched-trans :
      (k k' k'' : KeyState F) → Untouched k k' → Untouched k' k'' → Untouched k k''
  Untouched-trans k k' k'' h g = ground arith
