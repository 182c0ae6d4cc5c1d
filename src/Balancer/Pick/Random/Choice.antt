-- ===== src/Balancer/Pick/Random/Choice.antt =====
-- What `pickRandomLocked` chooses.
use mathlib.Core.List.{Memᴰ}
use mathlib.Core.Path.{subst}
use jc_proxy.Prelude.{
  ℕ, zero, suc, ◌<◌, ◌≡◌, refl, true, false, List, [], ◌∷◌, Option, some, inl, inr, ◌⊎◌, arith,
  length, get_elem?, get_elem?-some, Bool-cases,
}
use jc_proxy.Prelude.Int.{Time}
use jc_proxy.Balancer.KeyState.{KeyState}
use jc_proxy.Balancer.Pool.{Pool, Excluded, is_available, any_available, candidates}
use jc_proxy.Balancer.Pick.Picks.{Picks}
use jc_proxy.Balancer.Pick.Random.{available_of, pick_random}

mem-of_get_elem? : (xs : List ℕ) (k i : ℕ) → get_elem? xs k ≡ some i → Memᴰ i xs
mem-of_get_elem? [] k i h = cc
mem-of_get_elem? (x ∷ xs) zero i h = Memᴰ.head (cc)
mem-of_get_elem? (x ∷ xs) (suc k) i h = Memᴰ.tail (mem-of_get_elem? xs k i h)

mem_cons_cases : (i j : ℕ) (xs : List ℕ) → Memᴰ i (j ∷ xs) → (i ≡ j) ⊎ Memᴰ i xs
mem_cons_cases i j xs (Memᴰ.head e) = inl e
mem_cons_cases i j xs (Memᴰ.tail m) = inr m

module _ {F : Type 0} (keys : List (KeyState F)) (now : Time) (excluded : Excluded) where
  available_of-mem :
      (is : List ℕ) (i : ℕ)
      → Memᴰ i (available_of keys now excluded is)
      → (is_available keys now excluded i ≡ true) × Memᴰ i is
  unfolding available_of
  available_of-mem [] i m = elim m [ ]
  available_of-mem (j ∷ is) i m = elim (Bool-cases (is_available keys now excluded j)) [
    | inl hit ↦ elim (mem_cons_cases i j _ (subst (Memᴰ i) (rw hit) m)) [
      | inl e ↦ (rw e hit, Memᴰ.head e)
      | inr later ↦ let r = available_of-mem is i later in (r.0, Memᴰ.tail r.1)
    ]
    | inr miss ↦ let r = available_of-mem is i (subst (Memᴰ i) (rw miss) m) in (r.0, Memᴰ.tail r.1)
  ]

  available_of-empty :
      (is : List ℕ)
      → available_of keys now excluded is ≡ []
      → any_available keys now excluded is ≡ false
  unfolding available_of any_available
  available_of-empty [] h = refl
  available_of-empty (i ∷ is) h = elim (Bool-cases (is_available keys now excluded i)) [
    | inl hit ↦ absurd (ground arith)
    | inr miss ↦ rw (miss, available_of-empty is (ground arith))
  ]

  choice :
      (is scratch : List ℕ) (k : ℕ)
      → available_of keys now excluded is ≡ scratch
      → (0 < length scratch → k < length scratch)
      → Picks keys now excluded is (get_elem? scratch k)
  choice is [] k e h = available_of-empty is e
  choice is (x ∷ xs) k e h =
      let hit = get_elem?-some (x ∷ xs) k (h (omega arith)) in
      rw hit.1 (available_of-mem is hit.0 (rw e (mem-of_get_elem? (x ∷ xs) k hit.0 hit.1)))

-- `Intn n` is documented to lie below n.
pub pick_random-Picks :
    {F : Type 0} (intn : ℕ → ℕ) (now : Time) (excluded : Excluded) (allowed : Option (List ℕ))
    (p : Pool F)
    → ((n : ℕ) → 0 < n → intn n < n)
    → Picks p.keys now excluded
        (candidates p.keys allowed)
        (pick_random intn now excluded allowed p)
unfolding pick_random
pick_random-Picks intn now excluded allowed p below =
    choice p.keys now excluded (candidates p.keys allowed) _ _ refl (below _)
