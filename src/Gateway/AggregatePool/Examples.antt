-- ===== src/Gateway/AggregatePool/Examples.antt =====
-- An aggregate of three children, the first two in the better tier.
use Prim.Native.String.{String}
use jc_proxy.Prelude.{ℕ, Bool, true, false, List, [], ◌∷◌, none, refl, ◌≡◌, arith}
use jc_proxy.Prelude.Int.{◌-ℤ◌, ℤ, pos, ◌+ℤ◌, ◌-ℤ◌}
use jc_proxy.Gateway.AggregatePool.{tier, ChildEntry, AggregatePool}
use jc_proxy.Gateway.AggregatePool.Strategies.{pick_in, pick_weighted, pick_available}
use jc_proxy.Gateway.AggregatePool.Make.{new_aggregate_pool}
use jc_proxy.Gateway.AggregatePool.Make.Invariant.{
  IsReady, new_aggregate_pool-IsReady, pick_available-IsReady,
}
use jc_proxy.Gateway.AggregatePool.Tier.{Chosen, pick_available-Chosen}

abbrev child : String → ℤ → ℤ → ChildEntry ℕ
child name weight priority = record {
  id = name;
  vendor_id = name;
  name = name;
  vendor = none;
  weight = weight;
  priority = priority;
  key_idxs = none;
}

abbrev children : List (ChildEntry ℕ)
children = child "a" (pos 5) (pos 0) ∷ child "b" (pos 1) (pos 0) ∷ child "c" (pos 1) (pos 1) ∷ []

abbrev pool : AggregatePool ℕ
pool = record {
  strategy = "round_robin";
  entries = children;
  current_weights = pos 0 ∷ pos 0 ∷ pos 0 ∷ [];
}

abbrev all_available : ChildEntry ℕ → Bool
all_available e = true

abbrev none_excluded : String → Bool
none_excluded id = false

pick_available-Chosen_example :
    Chosen all_available none_excluded pool
      (pick_available (λ n. 0) all_available none_excluded pool)
pick_available-Chosen_example =
    pick_available-Chosen all_available none_excluded pool (λ n. 0)
      ((omega arith, (omega arith, tt)), ((omega arith, tt), (tt, tt)))

new_aggregate_pool-IsReady_example :
    IsReady (new_aggregate_pool "round_robin" (child "c" (pos 0) (pos 1) ∷ children))
new_aggregate_pool-IsReady_example =
    new_aggregate_pool-IsReady "round_robin" (child "c" (pos 0) (pos 1) ∷ children)

pick_available-IsReady_example :
    IsReady (pick_available (λ n. 0) all_available none_excluded pool).0
unfolding ◌+ℤ◌
pick_available-IsReady_example =
    pick_available-IsReady (λ n. 0) all_available none_excluded pool
      (record {
        sorted = ((omega arith, (omega arith, tt)), ((omega arith, tt), (tt, tt)));
        size = refl;
        balanced = refl;
      })

weighted_test :
    (pick_available (λ n. 0) all_available none_excluded pool).0.current_weights
    ≡ (pos 0 -ℤ pos 1) ∷ pos 1 ∷ pos 0 ∷ []
unfolding pick_available pick_in tier pick_weighted ◌-ℤ◌
weighted_test = refl
