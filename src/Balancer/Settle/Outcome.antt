-- ===== src/Balancer/Settle/Outcome.antt =====
-- What `CompleteAttempt` promises of the pool.
use jc_proxy.Prelude.{
  ℕ, ◌+◌, ◌-◌, ◌≡◌, ap, ◌∙◌, true, false, some, ◌↔◌, arith, get_elem?, set, modify-set,
}
use jc_proxy.Prelude.Int.{ℤ}
use jc_proxy.Prelude.Float.{FloatOps}
use jc_proxy.Balancer.Handle.{Handle}
use jc_proxy.Balancer.KeyState.{KeyState, is_current, drop_inflight}
use jc_proxy.Balancer.Pool.{Pool}
use jc_proxy.Balancer.Settle.{disable_key, AttemptResult, Clock, settle_attempt, complete_attempt}
use jc_proxy.Balancer.Settle.Attempt.{
  is_known, drop-is_current, settle-inflight, Counted, dispatch-Counted, Untouched,
  dispatch-obsolete, drop-stats, drop-Untouched, Untouched-trans, dispatch-authorizes,
}

module _ {F : Type 0} ⦃fl : FloatOps F⦄ (c : Clock) (version : ℤ) (r : AttemptResult) where
  pub complete-at :
      (p : Pool F) (idx : ℕ) (k : KeyState F)
      → get_elem? p.keys idx ≡ some k
      → ((complete_attempt c idx version r p).0.keys
          ≡ set p.keys idx (settle_attempt c version r k).0)
        × ((complete_attempt c idx version r p).1 ≡ (settle_attempt c version r k).1)
  unfolding complete_attempt
  complete-at p idx k h =
      (modify-set p.keys idx (λ x. (settle_attempt c version r x).0) k h, rw (h, complete_attempt))

  settle-obsolete :
      (k : KeyState F)
      → is_current (some version) k ≡ false
      → Untouched k (settle_attempt c version r k).0 × ((settle_attempt c version r k).1 ≡ false)
  unfolding settle_attempt
  settle-obsolete k old = rw (drop-is_current (some version) k ∙ old) (
      let d = dispatch-obsolete c r r.action (drop_inflight k) in
      (Untouched-trans k (drop_inflight k) _ (drop-Untouched k) d.0, d.1))

  settle-authorizes :
      (k : KeyState F)
      → ((settle_attempt c version r k).1 ≡ true)
        ↔ ((is_current (some version) k ≡ true) × (r.action ≡ disable_key))
  unfolding settle_attempt
  settle-authorizes k =
      rw (drop-is_current (some version) k)
        (dispatch-authorizes c r r.action (is_current (some version) k) (drop_inflight k))

  settle-Counted :
      (k : KeyState F) → is_known r.action ≡ true → Counted c r k (settle_attempt c version r k).0
  unfolding settle_attempt
  settle-Counted k e =
      let n =
        dispatch-Counted c r r.action (is_current (some version) (drop_inflight k))
          (drop_inflight k) e in
      let t : (drop_inflight k).stats.stats.total_requests ≡ k.stats.stats.total_requests =
        ap (λ (h : Handle F). h.stats.total_requests) (drop-stats k) in
      (omega arith, omega arith)

  -- Of a pool that has the key, a result with a known action takes one attempt off that key and
  -- adds exactly one to its total, in the statistics and in their atomic copy. The other keys stay
  -- as they were.
  pub complete-Counted :
      (p : Pool F) (idx : ℕ) (k : KeyState F)
      → get_elem? p.keys idx ≡ some k
      → is_known r.action ≡ true
      → (k' : KeyState F) × ((complete_attempt c idx version r p).0.keys ≡ set p.keys idx k')
        × (k'.inflight ≡ k.inflight - 1)
        × (k'.stats.stats.total_requests ≡ k.stats.stats.total_requests + 1)
        × (k'.stats.total_requests ≡ k.stats.stats.total_requests + 1)
  complete-Counted p idx k h known = (
    (settle_attempt c version r k).0,
    (complete-at p idx k h).0,
    settle-inflight c r version k,
    (settle-Counted k known).0,
    (settle-Counted k known).1,
  )

  -- A result that comes back for another version of a key in range, or for a retired key, leaves
  -- its status, health, cooldown, exploration state, last status, last error and window of samples,
  -- and the other keys. It authorizes nothing.
  pub complete-obsolete :
      (p : Pool F) (idx : ℕ) (k : KeyState F)
      → get_elem? p.keys idx ≡ some k
      → is_current (some version) k ≡ false
      → ((k' : KeyState F) × ((complete_attempt c idx version r p).0.keys ≡ set p.keys idx k')
          × Untouched k k')
        × ((complete_attempt c idx version r p).1 ≡ false)
  complete-obsolete p idx k h old =
      let e = settle-obsolete k old in
      (
        ((settle_attempt c version r k).0, (complete-at p idx k h).0, e.0),
        (complete-at p idx k h).1 ∙ e.1,
      )

  -- Of a key in range, the caller may persist an automatic disabling exactly when the attempt is
  -- current and its result asks for it.
  pub complete-authorizes :
      (p : Pool F) (idx : ℕ) (k : KeyState F)
      → get_elem? p.keys idx ≡ some k
      → ((complete_attempt c idx version r p).1 ≡ true)
        ↔ ((is_current (some version) k ≡ true) × (r.action ≡ disable_key))
  complete-authorizes p idx k h = rw (complete-at p idx k h).1 (settle-authorizes k)
