-- ===== src/Balancer/Settle.antt =====
-- internal/balancer/attempt_result.go, and the releases of pool.go: how an attempt ends. `modify`
-- changes nothing out of range, as `releaseInflightLocked` makes the source return at once.
pub mod Attempt
pub mod Outcome
pub mod Penalty
pub mod Releases
use Prim.Native.String.{String}
use jc_proxy.Prelude.{ℕ, Bool, true, false, not, Option, none, some, if◌then◌else◌, get_elem?}
use jc_proxy.Prelude.Int.{ℤ, Time, Duration, time_sub, add_duration}
use jc_proxy.Prelude.Float.{FloatOps}
use jc_proxy.Keystore.Status.{key_status_disabled_auto}
use jc_proxy.Balancer.Cooldown.{scaled_cooldown_duration}
use jc_proxy.Balancer.Handle.{
  Handle, record_sample, record_success, record_error, record_interrupted,
}
use jc_proxy.Balancer.KeyState.{
  KeyState, is_current, drop_inflight, record_failure, disable, note_sample,
}
use jc_proxy.Balancer.Pool.{Pool, at}

pub data AttemptAction : Type 0 where
  interrupted success observe cooldown disable_key : AttemptAction
  -- Any other text.
  unknown : String → AttemptAction

pub record AttemptResult : Type 0 where
  pub action : AttemptAction
  pub status_code : ℕ
  pub reason : String
  pub cooldown_time : Duration
  pub header_elapsed : Duration
  pub full_elapsed : Duration

-- The instants that a call reads: `p.nowf()` the first and the second time, and `schedulerEpoch`.
pub record Clock : Type 0 where
  pub now : Time
  pub later : Time
  pub epoch : Time

abbrev is_success : AttemptAction → Bool
is_success success = true
is_success _ = false

module _ {F : Type 0} where
  abbrev with_stats : (Handle F → Handle F) → KeyState F → KeyState F
  with_stats f k = record k { stats = f k.stats }

  -- The tail of `Cooldown`, of a result that is current.
  unfoldable pub cool_down : Time → Duration → KeyState F → KeyState F
  unfolding record_failure
  cool_down now base k =
      let k' = record_failure k in
      record k' {
        cooldown_until = add_duration now (scaled_cooldown_duration k'.cooldown_level base);
      }

  -- `ReleaseSuccess`; `none` is a call without an expected version.
  settle_success : Option ℤ → KeyState F → KeyState F
  unfolding drop_inflight is_current record_success
  settle_success expected k0 =
      let k = drop_inflight k0 in
      let k' = with_stats (record_success (not (is_current expected k))) k in
      if is_current expected k then record k' { failures = 0; cooldown_level = 0 } else k'

  unfoldable pub release_success : ℕ → Option ℤ → Pool F → Pool F
  unfolding settle_success at
  release_success idx expected = at idx (settle_success expected)

  unfoldable pub release : ℕ → Pool F → Pool F
  unfolding drop_inflight at
  release idx = at idx drop_inflight

  unfoldable pub release_interrupted : ℕ → Pool F → Pool F
  unfolding drop_inflight record_interrupted at
  release_interrupted idx = at idx (λ k. with_stats record_interrupted (drop_inflight k))

  unfoldable pub release_failure : ℕ → Pool F → Pool F
  unfolding drop_inflight record_error record_failure at
  release_failure idx = at idx (λ k.
      record_failure
        (with_stats (record_error 0 "upstream request failed" false) (drop_inflight k)))

  settle_observe : ℕ → String → Option ℤ → KeyState F → KeyState F
  unfolding drop_inflight is_current record_error
  settle_observe status reason expected k0 =
      let k = drop_inflight k0 in
      let k' = with_stats (record_error status reason (not (is_current expected k))) k in
      if is_current expected k then record k' { failures = 0 } else k'

  unfoldable pub observe_at : ℕ → ℕ → String → Option ℤ → Pool F → Pool F
  unfolding settle_observe at
  observe_at idx status reason expected = at idx (settle_observe status reason expected)

  settle_cooldown : Time → ℕ → String → Duration → Option ℤ → KeyState F → KeyState F
  unfolding drop_inflight is_current record_error cool_down
  settle_cooldown now status reason base expected k0 =
      let k = drop_inflight k0 in
      let k' = with_stats (record_error status reason (not (is_current expected k))) k in
      if is_current expected k then cool_down now base k' else k'

  unfoldable pub cooldown_at : Time → ℕ → ℕ → String → Duration → Option ℤ → Pool F → Pool F
  unfolding settle_cooldown at
  cooldown_at now idx status reason base expected =
      at idx (settle_cooldown now status reason base expected)

  settle_disable : Time → ℕ → String → String → Option ℤ → KeyState F → KeyState F
  unfolding drop_inflight is_current record_error disable
  settle_disable now status reason by expected k0 =
      let k = drop_inflight k0 in
      let k' = with_stats (record_error status reason (not (is_current expected k))) k in
      if is_current expected k then disable now key_status_disabled_auto reason by k' else k'

  unfoldable pub disable_at : Time → ℕ → ℕ → String → String → Option ℤ → Pool F → Pool F × Bool
  unfolding settle_disable at
  disable_at now idx status reason by expected p = (
    at idx (settle_disable now status reason by expected) p,
    elim (get_elem? p.keys idx) [ none ↦ false | some k ↦ is_current expected (drop_inflight k) ],
  )

  -- The counters of an attempt that is a success or an error.
  count_attempt : AttemptResult → Bool → Bool → Handle F → Handle F
  unfolding record_success record_error
  count_attempt r ok preserve =
      if ok then record_success preserve else record_error r.status_code r.reason preserve

module _ {F : Type 0} ⦃fl : FloatOps F⦄ where
  -- The sample of a current attempt: the window first, then the exploration state.
  unfoldable pub sample_attempt : Clock → AttemptResult → Bool → KeyState F → KeyState F
  sample_attempt c r ok k =
      let h = record_sample r.header_elapsed r.full_elapsed ok c.now k.stats in
      note_sample h.generation (time_sub c.now c.epoch) ok (record k { stats = h })

  -- `Pool.RecordSample`, of a key that is in range.
  record_key_sample : Clock → Duration → Duration → Bool → Option ℤ → KeyState F → KeyState F
  unfolding record_sample note_sample is_current
  record_key_sample c header full ok expected k =
      let h = record_sample header full ok c.now k.stats in
      let k' = note_sample h.generation (time_sub c.now c.epoch) ok (record k { stats = h }) in
      if is_current expected k then k' else k

  unfoldable pub record_sample_at :
      Clock → ℕ → Duration → Duration → Bool → Option ℤ → Pool F → Pool F
  unfolding record_key_sample at
  record_sample_at c idx header full ok expected =
      at idx (record_key_sample c header full ok expected)

  -- The last switch of `CompleteAttempt`.
  health_after : Clock → AttemptResult → AttemptAction → KeyState F → KeyState F × Bool
  unfolding cool_down disable
  health_after c r success k = (record k { failures = 0; cooldown_level = 0 }, false)
  health_after c r observe k = (record k { failures = 0 }, false)
  health_after c r cooldown k = (cool_down c.later r.cooldown_time k, false)
  health_after c r disable_key k =
      (disable c.later key_status_disabled_auto r.reason "system:auto" k, true)
  health_after c r interrupted k = (k, false)
  health_after c r (unknown _) k = (k, false)

  finish_attempt : AttemptAction → Clock → AttemptResult → Bool → KeyState F → KeyState F × Bool
  unfolding count_attempt health_after
  finish_attempt action c r true k =
      let ok = is_success action in
      health_after c r action (with_stats (count_attempt r ok false) (sample_attempt c r ok k))
  finish_attempt action c r false k =
      (with_stats (count_attempt r (is_success action) true) k, false)

  unfoldable pub dispatch :
      AttemptAction → Clock → AttemptResult → Bool → KeyState F → KeyState F × Bool
  unfolding finish_attempt record_interrupted
  dispatch interrupted c r current k = (with_stats record_interrupted k, false)
  dispatch (unknown _) c r current k = (k, false)
  dispatch action c r current k = finish_attempt action c r current k

  -- `CompleteAttempt` on the key that the index names.
  unfoldable pub settle_attempt : Clock → ℤ → AttemptResult → KeyState F → KeyState F × Bool
  unfolding dispatch drop_inflight is_current
  settle_attempt c version r k0 =
      let k = drop_inflight k0 in dispatch r.action c r (is_current (some version) k) k

  unfoldable pub complete_attempt : Clock → ℕ → ℤ → AttemptResult → Pool F → Pool F × Bool
  unfolding at
  complete_attempt c idx version r p = (
    at idx (λ k. (settle_attempt c version r k).0) p,
    elim (get_elem? p.keys idx) [ none ↦ false | some k ↦ (settle_attempt c version r k).1 ],
  )
