-- ===== src/Balancer/Pool/Retired.antt =====
-- No key of a retired pool of internal/balancer is available.
use jc_proxy.Prelude.{
  ℕ, zero, suc, ◌≡◌, true, false, List, [], ◌∷◌, some, arith, get_elem?, some_inj, inl, inr,
  Bool-cases, ap, sym,
}
use jc_proxy.Prelude.Int.{Time}
use jc_proxy.Balancer.KeyState.{KeyState, is_ready}
use jc_proxy.Balancer.Pool.{Pool, Excluded, is_available, retire, retire_all}
use jc_proxy.Balancer.Pool.Availability.{available_parts}

module _ {F : Type 0} where
  retire_all-retired :
      (ks : List (KeyState F)) (i : ℕ) (k : KeyState F)
      → get_elem? (retire_all ks) i ≡ some k
      → k.retired ≡ true
  unfolding retire_all
  retire_all-retired [] i k h = cc
  retire_all-retired (x ∷ ks) zero k h = sym (ap (λ (y : KeyState F). y.retired) (some_inj h))
  retire_all-retired (x ∷ ks) (suc i) k h = retire_all-retired ks i k h

  retired-is_ready : (now : Time) (k : KeyState F) → k.retired ≡ true → is_ready now k ≡ false
  unfolding is_ready
  retired-is_ready now k h = ground arith

  pub retire-is_available :
      (p : Pool F) (now : Time) (excluded : Excluded) (i : ℕ)
      → is_available (retire p).keys now excluded i ≡ false
  unfolding retire
  retire-is_available p now excluded i =
      elim (Bool-cases (is_available (retire_all p.keys) now excluded i)) [
        | inr e ↦ e
        | inl e ↦
            let (k, at_i, ready) = (available_parts (retire_all p.keys) now excluded i e).1 in
            let stopped = retired-is_ready now k (retire_all-retired p.keys i k at_i) in
            absurd (cc (ready, stopped))
      ]
