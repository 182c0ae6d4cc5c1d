-- ===== src/Balancer/Pool/Inflight.antt =====
-- The number of attempts under way on a key, and the operations of internal/balancer/pool.go that
-- leave it.
use Prim.Native.String.{String}
use jc_proxy.Prelude.{
  ℕ, zero, suc, ◌-◌, ◌≡◌, refl, Bool, List, [], ◌∷◌, Option, none, some, arith, if◌then◌else◌,
  modify, ◌==◌, inl, inr, Bool-cases, Option-cases,
}
use jc_proxy.Prelude.Int.{Time, Duration}
use jc_proxy.Prelude.Text.{trim_space, is_empty}
use jc_proxy.Prelude.Float.{FloatOps}
use jc_proxy.Balancer.KeyState.{KeyState, disable, enable}
use jc_proxy.Balancer.Pool.{
  Pool, KeyConfig, inflight_of, at_found, disable_key, enable_key, retire, retire_all, new_pool,
  new_keys, new_key, pool_of, parse_strategy, find_index,
}

-- One attempt fewer, if the test holds.
abbrev pub less_if : Bool → ℕ → ℕ
less_if b n = if b then n - 1 else n

module _ {F : Type 0} where
  pub inflight_of-modify :
      (f : KeyState F → KeyState F)
      → ((k : KeyState F) → (f k).inflight ≡ k.inflight - 1)
      → (ks : List (KeyState F)) (idx i : ℕ)
      → inflight_of (modify ks idx f) i ≡ less_if (i == idx) (inflight_of ks i)
  unfolding inflight_of
  inflight_of-modify f h [] idx i = ground arith
  inflight_of-modify f h (k ∷ ks) zero zero = ground (arith, h k)
  inflight_of-modify f h (k ∷ ks) zero (suc i) = ground arith
  inflight_of-modify f h (k ∷ ks) (suc idx) zero = ground arith
  inflight_of-modify f h (k ∷ ks) (suc idx) (suc i) =
      ground (arith, inflight_of-modify f h ks idx i)

  pub inflight_of-modify_same :
      (f : KeyState F → KeyState F)
      → ((k : KeyState F) → (f k).inflight ≡ k.inflight)
      → (ks : List (KeyState F)) (idx i : ℕ) → inflight_of (modify ks idx f) i ≡ inflight_of ks i
  unfolding inflight_of
  inflight_of-modify_same f h [] idx i = refl
  inflight_of-modify_same f h (k ∷ ks) zero zero = h k
  inflight_of-modify_same f h (k ∷ ks) zero (suc i) = refl
  inflight_of-modify_same f h (k ∷ ks) (suc idx) zero = refl
  inflight_of-modify_same f h (k ∷ ks) (suc idx) (suc i) = inflight_of-modify_same f h ks idx i

  at_found-inflight :
      (f : KeyState F → KeyState F)
      → ((k : KeyState F) → (f k).inflight ≡ k.inflight)
      → (p : Pool F) (found : Option ℕ) (i : ℕ)
      → inflight_of (at_found f p found).0.keys i ≡ inflight_of p.keys i
  unfolding at_found
  at_found-inflight f h p none i = refl
  at_found-inflight f h p (some idx) i = inflight_of-modify_same f h p.keys idx i

  pub disable_key-inflight :
      (now : Time) (key reason by : String) (p : Pool F) (i : ℕ)
      → inflight_of (disable_key now key reason by p).0.keys i ≡ inflight_of p.keys i
  unfolding disable_key disable
  disable_key-inflight now key reason by p i =
      at_found-inflight _ (λ k. refl) p (find_index key p) i

  pub enable_key-inflight :
      (key : String) (p : Pool F) (i : ℕ)
      → inflight_of (enable_key key p).0.keys i ≡ inflight_of p.keys i
  unfolding enable_key enable
  enable_key-inflight key p i = at_found-inflight _ (λ k. refl) p (find_index key p) i

  retire_all-inflight :
      (ks : List (KeyState F)) (i : ℕ) → inflight_of (retire_all ks) i ≡ inflight_of ks i
  unfolding retire_all inflight_of
  retire_all-inflight [] i = refl
  retire_all-inflight (k ∷ ks) zero = refl
  retire_all-inflight (k ∷ ks) (suc i) = retire_all-inflight ks i

  pub retire-inflight : (p : Pool F) (i : ℕ) → inflight_of (retire p).keys i ≡ inflight_of p.keys i
  unfolding retire
  retire-inflight p i = retire_all-inflight p.keys i

  cons-inflight :
      (k : KeyState F) (ks : List (KeyState F))
      → k.inflight ≡ 0
      → ((i : ℕ) → inflight_of ks i ≡ 0)
      → (i : ℕ) → inflight_of (k ∷ ks) i ≡ 0
  unfolding inflight_of
  cons-inflight k ks h t zero = h
  cons-inflight k ks h t (suc i) = t i

module _ {F : Type 0} ⦃fl : FloatOps F⦄ where
  new_keys-inflight :
      (created_at : Duration) (cfgs : List (KeyConfig F)) (i : ℕ)
      → inflight_of (new_keys created_at cfgs) i ≡ 0
  unfolding new_keys new_key inflight_of
  new_keys-inflight created_at [] i = refl
  new_keys-inflight created_at (cfg ∷ cfgs) i = elim (Bool-cases (is_empty (trim_space cfg.key))) [
    | inl e ↦ rw e (new_keys-inflight created_at cfgs i)
    | inr e ↦ rw e (
        cons-inflight (new_key created_at (trim_space cfg.key) cfg) _ refl
          (new_keys-inflight created_at cfgs) i)
  ]

  -- A new pool has no attempt under way.
  pub new_pool-inflight :
      (created_at : Duration) (strategy : String) (cfgs : List (KeyConfig F)) (p : Pool F)
      → new_pool created_at strategy cfgs ≡ some p
      → (i : ℕ) → inflight_of p.keys i ≡ 0
  unfolding new_pool pool_of
  new_pool-inflight created_at strategy cfgs p h i = elim (Option-cases (parse_strategy strategy)) [
    | inl e ↦ absurd (ground arith)
    | inr (s, e) ↦ ground (arith, new_keys-inflight created_at cfgs i)
  ]
