-- ===== src/Balancer/Pick/Random.antt =====
-- internal/balancer/pool.go: `pickRandomLocked`.
pub mod Choice
use jc_proxy.Prelude.{ℕ, List, [], ◌∷◌, Option, if◌then◌else◌, length, get_elem?}
use jc_proxy.Prelude.Int.{Time}
use jc_proxy.Balancer.KeyState.{KeyState}
use jc_proxy.Balancer.Pool.{Pool, Excluded, is_available, candidates}

module _ {F : Type 0} where
  available_of : List (KeyState F) → Time → Excluded → List ℕ → List ℕ
  unfolding is_available
  available_of keys now excluded [] = []
  available_of keys now excluded (i ∷ is) =
      let rest = available_of keys now excluded is in
      if is_available keys now excluded i then i ∷ rest else rest

  -- `intn` is `p.rng.Intn`.
  unfoldable pub pick_random : (ℕ → ℕ) → Time → Excluded → Option (List ℕ) → Pool F → Option ℕ
  unfolding available_of
  pick_random intn now excluded allowed p =
      let scratch = available_of p.keys now excluded (candidates p.keys allowed) in
      get_elem? scratch (intn (length scratch))
