-- ===== src/Gateway/AggregatePool/Strategies.antt =====
-- internal/gateway/gateway.go: how a child is picked within its tier, and the picks.
pub mod Choice
use Prim.Native.String.{String, compare}
use text.Mathlib.Text.{◌==◌ as str_eq, is_lt}
use jc_proxy.Prelude.{
  ℕ, zero, suc, ◌+◌, ◌*◌, Bool, true, false, ◌&&◌, ◌||◌, List, [], ◌∷◌, Option, none, some, ltb,
  if◌then◌else◌, get_elem?, modify,
}
use jc_proxy.Prelude.Int.{ℤ, pos, negsuc, pos_part, ◌+ℤ◌, ◌-ℤ◌, ltb_ℤ, leb_ℤ, eqb_ℤ}
use jc_proxy.Balancer.Pool.{load_totals}
use jc_proxy.Gateway.AggregatePool.{ChildEntry, AggregatePool, tier}

-- The result -1, 0 or 1 of `compareWeightedScore`.
pub data Comparison : Type 0 where
  less same more : Comparison

abbrev weight_or_one : ℤ → ℕ
weight_or_one (pos zero) = 1
weight_or_one (pos (suc n)) = suc n
weight_or_one (negsuc n) = 1

unfoldable pub compare_weighted_score : ℕ → ℤ → ℕ → ℤ → Comparison
compare_weighted_score left left_weight right right_weight =
    let l = left * weight_or_one right_weight in
    let r = right * weight_or_one left_weight in
    if ltb l r then less else if ltb r l then more else same

abbrev pub current_at : List ℤ → ℕ → ℤ
current_at ws i = elim (get_elem? ws i) [ none ↦ pos 0 | some w ↦ w ]

abbrev pub settle_weights : ℤ → List ℤ × ℕ → List ℤ × ℕ
settle_weights total (ws, best) = (modify ws best (λ w. w -ℤ total), best)

nth : ℕ → List ℕ → ℕ → ℕ
nth first rest k = elim (get_elem? (first ∷ rest) k) [ none ↦ first | some i ↦ i ]

count_of : List ℕ → ℕ
count_of [] = 0
count_of (i ∷ is) = count_of is + 1

settled_by : Comparison → Bool → Bool
settled_by less tie = true
settled_by more tie = false
settled_by same tie = tie

module _ {F : Type 0} where
  -- `p.entries[i].weight`, of an index in range.
  abbrev pub weight_at : List (ChildEntry F) → ℕ → ℤ
  weight_at es i = elim (get_elem? es i) [ none ↦ pos 0 | some e ↦ e.weight ]

  unfoldable pub total_weight : List (ChildEntry F) → List ℕ → ℤ
  unfolding ◌+ℤ◌
  total_weight es [] = pos 0
  total_weight es (i ∷ is) = weight_at es i +ℤ total_weight es is

  -- The loop of `pickRoundRobinLocked`, with `best`.
  unfoldable pub raise : List (ChildEntry F) → List ℕ → List ℤ → ℕ → List ℤ × ℕ
  raise es [] ws best = (ws, best)
  raise es (i ∷ is) ws best =
      let ws' = modify ws i (λ w. w +ℤ weight_at es i) in
      raise es is ws' (if ltb_ℤ (current_at ws' best) (current_at ws' i) then i else best)

  -- `pickRoundRobinLocked` on the indexes `first ∷ rest`.
  unfoldable pub pick_weighted : List (ChildEntry F) → ℕ → List ℕ → List ℤ → List ℤ × ℕ
  unfolding total_weight raise
  pick_weighted es first rest ws =
      let total = total_weight es (first ∷ rest) in
      if leb_ℤ total (pos 0)
      then (ws, first)
      else settle_weights total (raise es (first ∷ rest) ws first)

  -- The loop of `pickRandomLocked`; it ends with the last index.
  random_scan : List (ChildEntry F) → ℤ → ℕ → List ℕ → ℕ
  random_scan es r last [] = last
  random_scan es r last (i ∷ is) =
      let r' = r -ℤ weight_at es i in
      let rest = random_scan es r' i is in if ltb_ℤ r' (pos 0) then i else rest

  unfoldable pub pick_random : (ℕ → ℕ) → List (ChildEntry F) → ℕ → List ℕ → ℕ
  unfolding total_weight random_scan nth count_of
  pick_random intn es first rest =
      let total = total_weight es (first ∷ rest) in
      if leb_ℤ total (pos 0)
      then nth first rest (intn (count_of (first ∷ rest)))
      else random_scan es (pos (intn (pos_part total))) first (first ∷ rest)

module _ {F : Type 0} where
  -- `aggregateChildLoadScore`.
  unfoldable pub child_load_score : Bool → ChildEntry F → ℕ × ℕ
  child_load_score include_requests e = elim e.vendor [
    | none ↦ (0, 0)
    | some p ↦
        let (inflight, total) = load_totals e.key_idxs p in
        if include_requests then (total + inflight, inflight) else (inflight, total)
  ]

  -- Whether the loop of `pickLeastLocked` moves from the best so far to an entry.
  by_weight : ChildEntry F → ChildEntry F → Bool
  by_weight e best =
      ltb_ℤ best.weight e.weight || (eqb_ℤ e.weight best.weight && is_lt (compare e.name best.name))

  unfoldable pub less_loaded : Bool → ChildEntry F → ChildEntry F → Bool
  unfolding by_weight settled_by
  less_loaded include_requests e best =
      let (primary, secondary) = child_load_score include_requests e in
      let (best_primary, best_secondary) = child_load_score include_requests best in
      settled_by (compare_weighted_score primary e.weight best_primary best.weight) (
        settled_by (compare_weighted_score secondary e.weight best_secondary best.weight)
          (by_weight e best))

  beats_at : Bool → Option (ChildEntry F) → Option (ChildEntry F) → Bool
  unfolding less_loaded
  beats_at include_requests (some e) (some best) = less_loaded include_requests e best
  beats_at include_requests (some e) none = false
  beats_at include_requests none best = false

  least_scan : Bool → List (ChildEntry F) → ℕ → List ℕ → ℕ
  unfolding beats_at
  least_scan include_requests es best [] = best
  least_scan include_requests es best (i ∷ is) =
      least_scan include_requests es
        (if beats_at include_requests (get_elem? es i) (get_elem? es best) then i else best) is

  -- `pickLeastLocked` on the indexes `first ∷ rest`.
  unfoldable pub pick_least : Bool → List (ChildEntry F) → ℕ → List ℕ → ℕ
  unfolding least_scan
  pick_least include_requests es first rest = least_scan include_requests es first rest

  abbrev weighted : AggregatePool F → List ℤ × ℕ → AggregatePool F × Option ℕ
  weighted p (ws, best) = (record p { current_weights = ws }, some best)

  -- The switch of `pickAvailableLocked`, on the indexes of a tier.
  unfoldable pub pick_in : (ℕ → ℕ) → AggregatePool F → List ℕ → AggregatePool F × Option ℕ
  pick_in intn p [] = (p, none)
  pick_in intn p (first ∷ rest) =
      if str_eq p.strategy "random"
      then (p, some (pick_random intn p.entries first rest))
      else if str_eq p.strategy "least_used"
      then (p, some (pick_least false p.entries first rest))
      else if str_eq p.strategy "least_requests"
      then (p, some (pick_least true p.entries first rest))
      else weighted p (pick_weighted p.entries first rest p.current_weights)

  -- `PickAvailable`; the result is the index of the entry.
  unfoldable pub pick_available :
      (ℕ → ℕ)
      → (ChildEntry F → Bool)
      → (String → Bool)
      → AggregatePool F
      → AggregatePool F × Option ℕ
  pick_available intn available exclude p = pick_in intn p (tier available exclude p)

  -- `Pick`.
  unfoldable pub pick : (ℕ → ℕ) → AggregatePool F → AggregatePool F × Option ℕ
  unfolding pick_available
  pick intn p = pick_available intn (λ _. true) (λ _. false) p
