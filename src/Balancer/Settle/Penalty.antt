-- ===== src/Balancer/Settle/Penalty.antt =====
-- How the result of a current attempt changes the health of its key.
use Prim.Native.String.{String}
use jc_proxy.Prelude.{
  ℕ, ◌+◌, ◌≤◌, ◌<◌, ◌≡◌, refl, ap, ◌∙◌, true, false, some, ltb, lt→ltb, arith, get_elem?,
  if◌then◌else◌, set,
}
use jc_proxy.Prelude.Int.{longest, ℤ, pos, ◌+ℤ◌, ◌<ℤ◌, ltb_ℤ, Time, Duration, int_laws}
use jc_proxy.Prelude.Float.{FloatOps}
use jc_proxy.Keystore.Status.{is_active_status, key_status_disabled_auto, normalize_status}
use jc_proxy.Balancer.Cooldown.Growth.{base-le-scaled}
use jc_proxy.Balancer.KeyState.{KeyState, is_current, drop_inflight, is_ready, disable}
use jc_proxy.Balancer.Pool.{Pool}
use jc_proxy.Balancer.Settle.{
  AttemptAction, cooldown, disable_key, AttemptResult, Clock, dispatch, settle_attempt,
  complete_attempt, cool_down, sample_attempt, count_attempt,
}
use jc_proxy.Balancer.Settle.Attempt.{drop-is_current}
use jc_proxy.Balancer.Settle.Outcome.{complete-at}

later_still : (t now : Time) (b d : ℕ) → t <ℤ now +ℤ pos b → b ≤ d → ltb_ℤ t (now +ℤ pos d) ≡ true
later_still t now b d h k = lt→ltb _ _ (omega int_laws)

module _ {F : Type 0} where
  cooling-is_ready :
      (t : Time) (k : KeyState F) → ltb_ℤ t k.cooldown_until ≡ true → is_ready t k ≡ false
  unfolding is_ready
  cooling-is_ready t k h = ground arith

  cool_down-is_ready :
      (t now : Time) (b : ℕ) (base : Duration) (k : KeyState F)
      → base ≡ pos b
      → 0 < b
      → b ≤ longest
      → t <ℤ now +ℤ pos b
      → is_ready t (cool_down now base k) ≡ false
  unfolding cool_down
  cool_down-is_ready t now b base k e p q h =
      let s =
        base-le-scaled (if ltb k.cooldown_level 10 then k.cooldown_level + 1 else k.cooldown_level)
          b p q in
      cooling-is_ready t _ (rw (e, s.1) (later_still t now b s.0 h s.2))

  disabled-is_ready :
      (t now : Time) (reason by : String) (k : KeyState F)
      → is_ready t (disable now key_status_disabled_auto reason by k) ≡ false
  unfolding is_ready disable is_active_status
  disabled-is_ready t now reason by k = ground arith

module _ {F : Type 0} ⦃fl : FloatOps F⦄ (c : Clock) (version : ℤ) (r : AttemptResult) where
  settle_as :
      (a : AttemptAction) (k : KeyState F)
      → r.action ≡ a
      → is_current (some version) k ≡ true
      → settle_attempt c version r k ≡ dispatch a c r true (drop_inflight k)
  unfolding settle_attempt
  settle_as a k e cur =
      ap (λ x. dispatch x c r (is_current (some version) (drop_inflight k)) (drop_inflight k)) e
      ∙ ap (λ x. dispatch a c r x (drop_inflight k)) (drop-is_current (some version) k ∙ cur)

  -- The key of a current attempt that failed, when its sample and its error are recorded.
  abbrev failed : KeyState F → KeyState F
  failed k =
      let s = sample_attempt c r false (drop_inflight k) in
      record s { stats = count_attempt r false false s.stats }

  -- A current attempt on a key in range that ends with a positive cooldown within int64 leaves that
  -- key unready at every instant before the duration has passed since the settlement, whatever the
  -- level of the key. The other keys stay as they were.
  pub complete-cools :
      (p : Pool F) (idx b : ℕ) (k : KeyState F) (t : Time)
      → get_elem? p.keys idx ≡ some k
      → is_current (some version) k ≡ true
      → r.action ≡ cooldown
      → r.cooldown_time ≡ pos b
      → 0 < b
      → b ≤ longest
      → t <ℤ c.later +ℤ pos b
      → (k' : KeyState F) × ((complete_attempt c idx version r p).0.keys ≡ set p.keys idx k')
        × (is_ready t k' ≡ false)
  unfolding dispatch
  complete-cools p idx b k t h cur e d q l early = (
    (settle_attempt c version r k).0,
    (complete-at c version r p idx k h).0,
    rw (settle_as cooldown k e cur)
        (cool_down-is_ready t c.later b r.cooldown_time (failed k) d q l early),
  )

  -- A current attempt on a key in range whose result disables the key leaves that key with the
  -- status of an automatic disabling, unready at every instant. The other keys stay as they were.
  pub complete-disables :
      (p : Pool F) (idx : ℕ) (k : KeyState F) (t : Time)
      → get_elem? p.keys idx ≡ some k
      → is_current (some version) k ≡ true
      → r.action ≡ disable_key
      → (k' : KeyState F) × ((complete_attempt c idx version r p).0.keys ≡ set p.keys idx k')
        × (k'.status ≡ key_status_disabled_auto)
        × (is_ready t k' ≡ false)
  unfolding dispatch disable normalize_status
  complete-disables p idx k t h cur e = (
    (settle_attempt c version r k).0,
    (complete-at c version r p idx k h).0,
    rw (settle_as disable_key k e cur) refl,
    rw (settle_as disable_key k e cur)
        (disabled-is_ready t c.later r.reason "system:auto" (failed k)),
  )
