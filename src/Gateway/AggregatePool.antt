-- ===== src/Gateway/AggregatePool.antt =====
-- internal/gateway/gateway.go: the pool of an aggregate vendor, which picks one of its children. A
-- call holds `p.mu`, so it is one function. `vendor` is the balancer's pool of the child as it is
-- at the call, `none` where there is no vendor or no pool.
pub mod Make
pub mod Strategies
pub mod Tier
pub mod Weights
pub mod Examples
use Prim.Native.String.{String}
use text.Mathlib.Text.{◌==◌ as str_eq}
use jc_proxy.Prelude.{
  ℕ, ◌+◌, Bool, true, false, ◌||◌, List, [], ◌∷◌, Option, none, some, if◌then◌else◌, get_elem?,
}
use jc_proxy.Prelude.Int.{ℤ, ltb_ℤ}
use jc_proxy.Balancer.Pool.{Pool}

pub record ChildEntry (F : Type 0) : Type 0 where
  pub id : String
  pub vendor_id : String
  pub name : String
  pub vendor : Option (Pool F)
  pub weight : ℤ
  pub priority : ℤ
  pub key_idxs : Option (List ℕ)

pub record AggregatePool (F : Type 0) : Type 0 where
  pub strategy : String
  pub entries : List (ChildEntry F)
  pub current_weights : List ℤ

abbrev first_of : List ℕ → Option ℕ
first_of [] = none
first_of (i ∷ is) = some i

module _ {F : Type 0} where
  -- A lowest priority so far, or none yet; `e.priority > minPriority` once it is set.
  abbrev is_lower_tier : Option ℤ → ChildEntry F → Bool
  is_lower_tier none e = false
  is_lower_tier (some m) e = ltb_ℤ m e.priority

  abbrev first_priority : Option ℤ → ChildEntry F → ℤ
  first_priority none e = e.priority
  first_priority (some m) e = m

  -- The loop of `pickAvailableLocked` from index `i` on; the test is that an entry is neither
  -- excluded nor unavailable.
  unfoldable pub tier_from : (ChildEntry F → Bool) → ℕ → Option ℤ → List (ChildEntry F) → List ℕ
  tier_from usable i m [] = []
  tier_from usable i m (e ∷ es) =
      let skipped = tier_from usable (i + 1) m es in
      let taken = i ∷ tier_from usable (i + 1) (some (first_priority m e)) es in
      if usable e then (if is_lower_tier m e then [] else taken) else skipped

  -- `!isExcluded(e) && available(e)`, where `exclude` is a test of ids.
  abbrev pub is_usable : (ChildEntry F → Bool) → (String → Bool) → ChildEntry F → Bool
  is_usable available exclude e = if exclude e.id then false else available e

  unfoldable pub tier : (ChildEntry F → Bool) → (String → Bool) → AggregatePool F → List ℕ
  unfolding tier_from
  tier available exclude p = tier_from (is_usable available exclude) 0 none p.entries

  -- `HasAvailable`: `pickAvailableLocked` without a strategy finds an entry.
  unfoldable pub has_available : (ChildEntry F → Bool) → (String → Bool) → AggregatePool F → Bool
  unfolding tier
  has_available available exclude p = elim (first_of (tier available exclude p)) [
    | none ↦ false
    | some i ↦ true
  ]
