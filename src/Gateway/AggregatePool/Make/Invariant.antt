-- ===== src/Gateway/AggregatePool/Make/Invariant.antt =====
-- A pool of children is in the order of priority, and the current weights of its children sum to 0.
use Prim.Native.String.{String}
use text.Mathlib.Text.{◌==◌ as str_eq}
use mathlib.Core.Path.{subst}
use jc_proxy.Prelude.{
  ℕ, suc, ◌+◌, ◌≡◌, refl, ap, sym, ◌∙◌, Bool, true, false, List, [], ◌∷◌, none, inl, inr, arith,
  length, length-modify, Bool-cases,
}
use jc_proxy.Prelude.Int.{add_pos, ℤ, pos, ◌≤ℤ◌, ◌+ℤ◌, ltb_ℤ, leb_ℤ}
use jc_proxy.Gateway.AggregatePool.{ChildEntry, AggregatePool, tier, is_usable}
use jc_proxy.Gateway.AggregatePool.Make.{
  prepare_all, insert, sort_by_priority, zero_weights, new_aggregate_pool,
}
use jc_proxy.Gateway.AggregatePool.Strategies.{
  pick_available, pick_in, pick_weighted, raise, settle_weights, total_weight,
}
use jc_proxy.Gateway.AggregatePool.Tier.{AllBelow-le, tier_from-AllBelow, IsSorted, AllAtLeast}
use jc_proxy.Gateway.AggregatePool.Weights.{sum, AllBelow, pick_weighted-sum}

ltb_ℤ-true : (a b : ℤ) → ltb_ℤ a b ≡ true → a ≤ℤ b
ltb_ℤ-true a b h = ground arith

ltb_ℤ-false : (a b : ℤ) → ltb_ℤ a b ≡ false → b ≤ℤ a
ltb_ℤ-false a b h = ground arith

add_zero : (a : ℤ) → a ≡ pos 0 → pos 0 +ℤ a ≡ pos 0
add_zero a h = ap (λ x. pos 0 +ℤ x) h ∙ add_pos 0 0

settle-length : (total : ℤ) (r : List ℤ × ℕ) → length (settle_weights total r).0 ≡ length r.0
settle-length total (ws, best) = length-modify ws best _

module _ {F : Type 0} where
  -- The children are in order, each has a current weight, and these sum to 0.
  pub record IsReady (p : AggregatePool F) : Type 0 where
    pub sorted : IsSorted p.entries
    pub size : length p.current_weights ≡ length p.entries
    pub balanced : sum p.current_weights ≡ pos 0

  AllAtLeast-le : (v w : ℤ) (es : List (ChildEntry F)) → w ≤ℤ v → AllAtLeast v es → AllAtLeast w es
  AllAtLeast-le v w [] h a = tt
  AllAtLeast-le v w (e ∷ es) h (l, a) = (omega arith, AllAtLeast-le v w es h a)

  insert-AllAtLeast :
      (v : ℤ) (e : ChildEntry F) (es : List (ChildEntry F))
      → v ≤ℤ e.priority
      → AllAtLeast v es
      → AllAtLeast v (insert e es)
  unfolding insert
  insert-AllAtLeast v e [] h a = (h, tt)
  insert-AllAtLeast v e (x ∷ xs) h (l, a) = elim (Bool-cases (ltb_ℤ x.priority e.priority)) [
    | inl t ↦ rw t (l, insert-AllAtLeast v e xs h a)
    | inr t ↦ rw t (h, (l, a))
  ]

  insert-IsSorted :
      (e : ChildEntry F) (es : List (ChildEntry F)) → IsSorted es → IsSorted (insert e es)
  unfolding insert
  insert-IsSorted e [] s = (tt, tt)
  insert-IsSorted e (x ∷ xs) (a, s) = elim (Bool-cases (ltb_ℤ x.priority e.priority)) [
    | inl t ↦ rw t (
      insert-AllAtLeast x.priority e xs (ltb_ℤ-true x.priority e.priority t) a,
      insert-IsSorted e xs s,
    )
    | inr t ↦
        let l = ltb_ℤ-false x.priority e.priority t in
        rw t ((l, AllAtLeast-le x.priority e.priority xs l a), (a, s))
  ]

  sort-IsSorted : (es : List (ChildEntry F)) → IsSorted (sort_by_priority es)
  unfolding sort_by_priority
  sort-IsSorted [] = tt
  sort-IsSorted (e ∷ es) = insert-IsSorted e (sort_by_priority es) (sort-IsSorted es)

  length-zero_weights : (es : List (ChildEntry F)) → length (zero_weights es) ≡ length es
  unfolding zero_weights
  length-zero_weights [] = refl
  length-zero_weights (e ∷ es) = ap suc (length-zero_weights es)

  sum-zero_weights : (es : List (ChildEntry F)) → sum (zero_weights es) ≡ pos 0
  unfolding zero_weights
  sum-zero_weights [] = refl
  sum-zero_weights (e ∷ es) = add_zero (sum (zero_weights es)) (sum-zero_weights es)

  -- A new pool has its children in the order of priority, one current weight for each, and the sum
  -- of these is 0.
  pub new_aggregate_pool-IsReady :
      (strategy : String) (entries : List (ChildEntry F))
      → IsReady (new_aggregate_pool strategy entries)
  unfolding new_aggregate_pool
  new_aggregate_pool-IsReady strategy entries =
      let prepared = prepare_all 0 entries in
      record {
        sorted = sort-IsSorted prepared;
        size = length-zero_weights (sort_by_priority prepared);
        balanced = sum-zero_weights (sort_by_priority prepared);
      }

  raise-length :
      (es : List (ChildEntry F)) (is : List ℕ) (ws : List ℤ) (best : ℕ)
      → length (raise es is ws best).0 ≡ length ws
  unfolding raise
  raise-length es [] ws best = refl
  raise-length es (i ∷ is) ws best = raise-length es is _ _ ∙ length-modify ws i _

  pick_weighted-length :
      (es : List (ChildEntry F)) (first : ℕ) (rest : List ℕ) (ws : List ℤ)
      → length (pick_weighted es first rest ws).0 ≡ length ws
  unfolding pick_weighted
  pick_weighted-length es first rest ws =
      let total = total_weight es (first ∷ rest) in
      elim (Bool-cases (leb_ℤ total (pos 0))) [
        | inl e ↦ rw e refl
        | inr e ↦ rw e (
            settle-length total (raise es (first ∷ rest) ws first)
            ∙ raise-length es (first ∷ rest) ws first)
      ]

  weighted-IsReady :
      (p : AggregatePool F) (first : ℕ) (rest : List ℕ)
      → IsReady p
      → AllBelow (length p.entries) (first ∷ rest)
      → IsReady
          (record p { current_weights = (pick_weighted p.entries first rest p.current_weights).0 })
  weighted-IsReady p first rest v below = record {
    sorted = v.sorted;
    size = pick_weighted-length p.entries first rest p.current_weights ∙ v.size;
    balanced =
        pick_weighted-sum p.entries first rest p.current_weights
          (subst (λ n. AllBelow n (first ∷ rest)) (sym v.size) below)
        ∙ v.balanced;
  }

  pick_in-IsReady :
      (intn : ℕ → ℕ) (p : AggregatePool F) (is : List ℕ)
      → IsReady p
      → AllBelow (length p.entries) is
      → IsReady (pick_in intn p is).0
  unfolding pick_in
  pick_in-IsReady intn p [] v below = v
  pick_in-IsReady intn p (first ∷ rest) v below = elim (Bool-cases (str_eq p.strategy "random")) [
    | inl e ↦ rw e v
    | inr e ↦ elim (Bool-cases (str_eq p.strategy "least_used")) [
      | inl u ↦ rw (e, u) v
      | inr u ↦ elim (Bool-cases (str_eq p.strategy "least_requests")) [
        | inl w ↦ rw (e, u, w) v
        | inr w ↦ rw (e, u, w) (weighted-IsReady p first rest v below)
      ]
    ]
  ]

  -- Every pick, whatever the strategy and the draws, keeps the children in the order of priority,
  -- one current weight for each, and the sum of these at 0.
  pub pick_available-IsReady :
      (intn : ℕ → ℕ) (available : ChildEntry F → Bool) (exclude : String → Bool)
      (p : AggregatePool F)
      → IsReady p
      → IsReady (pick_available intn available exclude p).0
  unfolding pick_available tier
  pick_available-IsReady intn available exclude p v =
      pick_in-IsReady intn p (tier available exclude p) v (
        AllBelow-le (0 + length p.entries) (length p.entries) _ (omega arith)
          (tier_from-AllBelow (is_usable available exclude) 0 none p.entries))
