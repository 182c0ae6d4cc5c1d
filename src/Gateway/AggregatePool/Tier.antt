-- ===== src/Gateway/AggregatePool/Tier.antt =====
-- Which child a pick can choose: an open one, of the best priority among the open ones.
use mathlib.Core.List.{Memᴰ}
use mathlib.Core.Path.{subst}
use Prim.Native.String.{String}
use jc_proxy.Prelude.{
  length, ◌≤◌, ℕ, suc, ◌+◌, ◌≡◌, ◌⊎◌, refl, Bool, true, false, List, [], ◌∷◌, Option, none, some,
  inl, inr, arith, get_elem?, Bool-cases,
}
use jc_proxy.Prelude.Int.{ℤ, ◌≤ℤ◌, ltb_ℤ}
use jc_proxy.Gateway.AggregatePool.Weights.{AllBelow}
use jc_proxy.Gateway.AggregatePool.{
  is_lower_tier, first_priority, ChildEntry, AggregatePool, is_usable, tier_from, tier,
}
use jc_proxy.Gateway.AggregatePool.Strategies.Choice.{Takes, pick_in-Takes}
use jc_proxy.Gateway.AggregatePool.Strategies.{pick_in, pick_available}

pub AllBelow-le : (m n : ℕ) (is : List ℕ) → m ≤ n → AllBelow m is → AllBelow n is
AllBelow-le m n [] h a = tt
AllBelow-le m n (i ∷ is) h (l, a) = (omega arith, AllBelow-le m n is h a)

module _ {F : Type 0} where
  -- No child of the list has a better priority.
  abbrev pub AllAtLeast : ℤ → List (ChildEntry F) → Type 0
  AllAtLeast v [] = Unit
  AllAtLeast v (e ∷ es) = (v ≤ℤ e.priority) × AllAtLeast v es

  -- In the order of priority, the best first.
  abbrev pub IsSorted : List (ChildEntry F) → Type 0
  IsSorted [] = Unit
  IsSorted (e ∷ es) = AllAtLeast e.priority es × IsSorted es

le-of_ltb : (v p : ℤ) → ltb_ℤ v p ≡ false → p ≤ℤ v
le-of_ltb v p h = ground arith

split : (j i : ℕ) (is : List ℕ) → Memᴰ j (i ∷ is) → (j ≡ i) ⊎ Memᴰ j is
split j i is (Memᴰ.head e) = inl e
split j i is (Memᴰ.tail m) = inr m

module _ {F : Type 0} (usable : ChildEntry F → Bool) where
  -- A usable child at a place of the list, with at most a priority.
  abbrev Found : ℕ → ℕ → ℤ → List (ChildEntry F) → Type 0
  Found i j v es =
      (k : ℕ) × (e : ChildEntry F) × (j ≡ i + k)
      × (get_elem? es k ≡ some e)
      × (usable e ≡ true)
      × (e.priority ≤ℤ v)

  tier_from-some :
      (i j : ℕ) (v : ℤ) (es : List (ChildEntry F))
      → Memᴰ j (tier_from usable i (some v) es)
      → Found i j v es
  unfolding tier_from
  tier_from-some i j v [] m = elim m [ ]
  tier_from-some i j v (x ∷ es) m = elim (Bool-cases (usable x)) [
    | inr u ↦ later (tier_from-some (i + 1) j v es (rw u at m))
    | inl u ↦ elim (Bool-cases (ltb_ℤ v x.priority)) [
      | inl low ↦ elim (rw (u, low) at m) [ ]
      | inr same ↦ elim (split j i _ (rw (u, same) at m)) [
        | inl e ↦ (0, x, omega (arith, e), refl, u, le-of_ltb v x.priority same)
        | inr n ↦ later (tier_from-some (i + 1) j v es n)
      ]
    ]
  ]
    where
      later : Found (i + 1) j v es → Found i j v (x ∷ es)
      later (k, e, p, q, u, l) = (suc k, e, omega arith, q, u, l)

  -- No usable child of the list has a better priority.
  abbrev pub AtLeast : ℤ → List (ChildEntry F) → Type 0
  AtLeast v [] = Unit
  AtLeast v (e ∷ es) = ((usable e ≡ false) ⊎ (v ≤ℤ e.priority)) × AtLeast v es

  abbrev pub NoneUsable : List (ChildEntry F) → Type 0
  NoneUsable [] = Unit
  NoneUsable (e ∷ es) = (usable e ≡ false) × NoneUsable es

  AllAtLeast-AtLeast :
      (v w : ℤ) (es : List (ChildEntry F)) → w ≤ℤ v → AllAtLeast v es → AtLeast w es
  AllAtLeast-AtLeast v w [] h a = tt
  AllAtLeast-AtLeast v w (e ∷ es) h (l, a) = (inr (omega arith), AllAtLeast-AtLeast v w es h a)

  -- The child at a place of the list is usable, and none that is has a better priority.
  abbrev pub BestAt : ℕ → List (ChildEntry F) → Type 0
  BestAt k es =
      (e : ChildEntry F) × (get_elem? es k ≡ some e) × (usable e ≡ true) × AtLeast e.priority es

  tier_from-none :
      (i j : ℕ) (es : List (ChildEntry F))
      → IsSorted es
      → Memᴰ j (tier_from usable i none es)
      → (k : ℕ) × (j ≡ i + k) × BestAt k es
  unfolding tier_from
  tier_from-none i j [] s m = elim m [ ]
  tier_from-none i j (x ∷ es) (a, s) m = elim (Bool-cases (usable x)) [
    | inr u ↦ skipped u (tier_from-none (i + 1) j es s (rw u at m))
    | inl u ↦ elim (split j i _ (rw u at m)) [
      | inl e ↦ (
        0,
        omega (arith, e),
        (
          x,
          refl,
          u,
          (inr (omega arith), AllAtLeast-AtLeast x.priority x.priority es (omega arith) a),
        ),
      )
      | inr n ↦ taken (tier_from-some (i + 1) j x.priority es n)
    ]
  ]
    where
      skipped :
          usable x ≡ false
          → ((k : ℕ) × (j ≡ (i + 1) + k) × BestAt k es)
          → (k : ℕ) × (j ≡ i + k) × BestAt k (x ∷ es)
      skipped u (k, p, (e, q, v, l)) = (suc k, omega arith, (e, q, v, (inl u, l)))

      taken : Found (i + 1) j x.priority es → (k : ℕ) × (j ≡ i + k) × BestAt k (x ∷ es)
      taken (k, e, p, q, u, l) =
          (suc k, omega arith, (e, q, u, (inr l, AllAtLeast-AtLeast x.priority e.priority es l a)))

  tier_from-empty :
      (i : ℕ) (es : List (ChildEntry F)) → tier_from usable i none es ≡ [] → NoneUsable es
  unfolding tier_from
  tier_from-empty i [] h = tt
  tier_from-empty i (x ∷ es) h = elim (Bool-cases (usable x)) [
    | inr u ↦ (u, tier_from-empty (i + 1) es (rw u at h))
    | inl u ↦ absurd (cc (rw u at h))
  ]

module _ {F : Type 0} (usable : ChildEntry F → Bool) where
  -- The indexes of a tier are indexes of children.
  pub tier_from-AllBelow :
      (i : ℕ) (m : Option ℤ) (es : List (ChildEntry F))
      → AllBelow (i + length es) (tier_from usable i m es)
  unfolding tier_from
  tier_from-AllBelow i m [] = tt
  tier_from-AllBelow i m (x ∷ es) =
      let up = AllBelow-le (i + 1 + length es) (i + length (x ∷ es)) in
      elim (Bool-cases (usable x)) [
        | inr u ↦
            rw u
              (up (tier_from usable (i + 1) m es) (omega arith) (tier_from-AllBelow (i + 1) m es))
        | inl u ↦ elim (Bool-cases (is_lower_tier m x)) [
          | inl t ↦ rw (u, t) tt
          | inr t ↦
              rw (u, t)
                (
                  omega arith,
                  up (tier_from usable (i + 1) (some (first_priority m x)) es) (omega arith)
                      (tier_from-AllBelow (i + 1) (some (first_priority m x)) es),
                )
        ]
      ]

module _ {F : Type 0} (available : ChildEntry F → Bool) (exclude : String → Bool)
    (p : AggregatePool F) where
  -- No child is usable, or the child is a usable one of the best priority among these. The children
  -- stay as they were.
  abbrev pub Chosen : AggregatePool F × Option ℕ → Type 0
  Chosen (q, none) = (q.entries ≡ p.entries) × NoneUsable (is_usable available exclude) p.entries
  Chosen (q, some i) = (q.entries ≡ p.entries) × BestAt (is_usable available exclude) i p.entries

  Takes-Chosen :
      (r : AggregatePool F × Option ℕ)
      → IsSorted p.entries
      → Takes p (tier available exclude p) r
      → Chosen r
  unfolding tier
  Takes-Chosen (q, none) s (e, h) = (e, tier_from-empty (is_usable available exclude) 0 p.entries h)
  Takes-Chosen (q, some i) s (e, m) =
      let best = tier_from-none (is_usable available exclude) 0 i p.entries s m in
      let at_i : best.0 ≡ i = omega (arith, best.1) in
      (e, subst (λ k. BestAt (is_usable available exclude) k p.entries) at_i best.2)

  -- Whatever the strategy and the draws, of children in the order of priority a pick takes one that
  -- is available and not excluded, and no such child has a better priority; or there is no such
  -- child. The children stay as they were.
  pub pick_available-Chosen :
      (intn : ℕ → ℕ) → IsSorted p.entries → Chosen (pick_available intn available exclude p)
  unfolding pick_available
  pick_available-Chosen intn s =
      Takes-Chosen (pick_in intn p (tier available exclude p)) s
        (pick_in-Takes p intn (tier available exclude p))
