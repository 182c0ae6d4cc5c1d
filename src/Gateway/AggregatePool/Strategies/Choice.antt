-- ===== src/Gateway/AggregatePool/Strategies/Choice.antt =====
-- Every strategy picks one of the indexes that it is given.
use mathlib.Core.List.{Memᴰ}
use text.Mathlib.Text.{◌==◌ as str_eq}
use jc_proxy.Prelude.{
  ℕ, zero, suc, ◌≡◌, refl, Bool, true, false, List, [], ◌∷◌, Option, none, some, some_inj, inl, inr,
  get_elem?, Bool-cases, Option-cases, if◌then◌else◌, ◌⊎◌, sym,
}
use jc_proxy.Prelude.Int.{ℤ, pos, ◌-ℤ◌, ltb_ℤ, leb_ℤ}
use jc_proxy.Gateway.AggregatePool.{ChildEntry, AggregatePool}
use jc_proxy.Gateway.AggregatePool.Strategies.{
  weight_at, total_weight, raise, settle_weights, pick_weighted, random_scan, nth, pick_random,
  least_scan, pick_least, pick_in,
}

-- An index that is one of the list or the one before it.
abbrev From : ℕ → List ℕ → ℕ → Type 0
From b is i = (i ≡ b) ⊎ Memᴰ i is

From-mem : (b i : ℕ) (is : List ℕ) → From b is i → Memᴰ i (b ∷ is)
From-mem b i is (inl e) = Memᴰ.head e
From-mem b i is (inr m) = Memᴰ.tail m

From-if : (t : Bool) (b x i : ℕ) (is : List ℕ) → From (if t then x else b) is i → From b (x ∷ is) i
From-if true b x i is (inl e) = inr (Memᴰ.head e)
From-if false b x i is (inl e) = inl e
From-if t b x i is (inr m) = inr (Memᴰ.tail m)

From-self : (b i : ℕ) (is : List ℕ) → From b (b ∷ is) i → Memᴰ i (b ∷ is)
From-self b i is (inl e) = Memᴰ.head e
From-self b i is (inr m) = m

get_elem?-mem : (is : List ℕ) (k i : ℕ) → get_elem? is k ≡ some i → Memᴰ i is
get_elem?-mem [] k i h = cc
get_elem?-mem (x ∷ is) zero i h = Memᴰ.head (sym (some_inj h))
get_elem?-mem (x ∷ is) (suc k) i h = Memᴰ.tail (get_elem?-mem is k i h)

nth-mem : (first : ℕ) (rest : List ℕ) (k : ℕ) → Memᴰ (nth first rest k) (first ∷ rest)
unfolding nth
nth-mem first rest k = elim (Option-cases (get_elem? (first ∷ rest) k)) [
  | inl e ↦ rw (e, nth) (Memᴰ.head refl)
  | inr (i, e) ↦ rw (e, nth) (get_elem?-mem (first ∷ rest) k i e)
]

module _ {F : Type 0} (es : List (ChildEntry F)) where
  raise-From : (is : List ℕ) (ws : List ℤ) (best : ℕ) → From best is (raise es is ws best).1
  unfolding raise
  raise-From [] ws best = inl refl
  raise-From (i ∷ is) ws best = From-if _ best i _ is (raise-From is _ _)

  settle-best : (total : ℤ) (r : List ℤ × ℕ) → (settle_weights total r).1 ≡ r.1
  settle-best total (ws, best) = refl

  pick_weighted-mem :
      (first : ℕ) (rest : List ℕ) (ws : List ℤ)
      → Memᴰ (pick_weighted es first rest ws).1 (first ∷ rest)
  unfolding pick_weighted
  pick_weighted-mem first rest ws =
      let total = total_weight es (first ∷ rest) in
      elim (Bool-cases (leb_ℤ total (pos 0))) [
        | inl e ↦ rw e (Memᴰ.head refl)
        | inr e ↦
            rw (e, settle-best total (raise es (first ∷ rest) ws first))
              (From-self first _ rest (raise-From (first ∷ rest) ws first))
      ]

  random_scan-From : (r : ℤ) (last : ℕ) (is : List ℕ) → From last is (random_scan es r last is)
  unfolding random_scan
  random_scan-From r last [] = inl refl
  random_scan-From r last (i ∷ is) = elim (Bool-cases (ltb_ℤ (r -ℤ weight_at es i) (pos 0))) [
    | inl e ↦ rw e (inr (Memᴰ.head refl))
    | inr e ↦ rw e (inr (From-mem i _ is (random_scan-From (r -ℤ weight_at es i) i is)))
  ]

  pick_random-mem :
      (intn : ℕ → ℕ) (first : ℕ) (rest : List ℕ)
      → Memᴰ (pick_random intn es first rest) (first ∷ rest)
  unfolding pick_random
  pick_random-mem intn first rest =
      elim (Bool-cases (leb_ℤ (total_weight es (first ∷ rest)) (pos 0))) [
        | inl e ↦ rw e (nth-mem first rest _)
        | inr e ↦ rw e (From-self first _ rest (random_scan-From _ first (first ∷ rest)))
      ]

  least_scan-From :
      (include_requests : Bool) (is : List ℕ) (best : ℕ)
      → From best is (least_scan include_requests es best is)
  unfolding least_scan
  least_scan-From include_requests [] best = inl refl
  least_scan-From include_requests (i ∷ is) best =
      From-if _ best i _ is (least_scan-From include_requests is _)

  pick_least-mem :
      (include_requests : Bool) (first : ℕ) (rest : List ℕ)
      → Memᴰ (pick_least include_requests es first rest) (first ∷ rest)
  unfolding pick_least
  pick_least-mem include_requests first rest =
      From-mem first _ rest (least_scan-From include_requests rest first)

module _ {F : Type 0} (p : AggregatePool F) where
  abbrev pub Takes : List ℕ → AggregatePool F × Option ℕ → Type 0
  Takes is (q, none) = (q.entries ≡ p.entries) × (is ≡ [])
  Takes is (q, some i) = (q.entries ≡ p.entries) × Memᴰ i is

  pub pick_in-Takes : (intn : ℕ → ℕ) (is : List ℕ) → Takes is (pick_in intn p is)
  unfolding pick_in
  pick_in-Takes intn [] = (refl, refl)
  pick_in-Takes intn (first ∷ rest) = elim (Bool-cases (str_eq p.strategy "random")) [
    | inl e ↦ rw e (refl, pick_random-mem p.entries intn first rest)
    | inr e ↦ elim (Bool-cases (str_eq p.strategy "least_used")) [
      | inl u ↦ rw (e, u) (refl, pick_least-mem p.entries false first rest)
      | inr u ↦ elim (Bool-cases (str_eq p.strategy "least_requests")) [
        | inl v ↦ rw (e, u, v) (refl, pick_least-mem p.entries true first rest)
        | inr v ↦ rw (e, u, v) (refl, pick_weighted-mem p.entries first rest p.current_weights)
      ]
    ]
  ]
