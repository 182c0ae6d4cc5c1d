-- ===== src/Balancer/Pool/Availability.antt =====
-- Which keys of a pool are available: facts about `isAvailableLocked` and the scans for it.
use mathlib.Core.List.{Memᴰ}
use native.Mathlib.Decide.{ℕ_discrete}
use jc_proxy.Prelude.{
  ℕ, zero, suc, ◌+◌, ◌≤◌, ◌<◌, ◌≡◌, refl, true, false, List, [], ◌∷◌, some, arith, length,
  get_elem?, modify, lt-of_get_elem?, range_from, Option-cases, inl, inr,
}
use jc_proxy.Prelude.Int.{Time}
use jc_proxy.Balancer.KeyState.{KeyState, is_ready}
use jc_proxy.Balancer.Pool.{Excluded, is_available, ready_at, any_available}

module _ {F : Type 0} (keys : List (KeyState F)) (now : Time) (excluded : Excluded) where
  -- An available key is in range, is not excluded, and is ready.
  pub available_parts :
      (i : ℕ)
      → is_available keys now excluded i ≡ true
      → (excluded i ≡ false)
        × ((k : KeyState F) × (get_elem? keys i ≡ some k) × (is_ready now k ≡ true))
  unfolding is_available
  available_parts i h = elim (Option-cases (get_elem? keys i)) [
    | inl e ↦ absurd (ground arith)
    | inr (k, e) ↦ (ground arith, (k, e, ground arith))
  ]

  pub available-lt : (i : ℕ) → is_available keys now excluded i ≡ true → i < length keys
  available-lt i h = let parts = (available_parts i h).1 in lt-of_get_elem? keys i parts.0 parts.1

  pub any_available-of_mem :
      (i : ℕ) (is : List ℕ)
      → is_available keys now excluded i ≡ true
      → Memᴰ i is
      → any_available keys now excluded is ≡ true
  unfolding any_available
  any_available-of_mem i [] h m = elim m [ ]
  any_available-of_mem i (x ∷ xs) h (Memᴰ.head e) = rw (← e, h)
  any_available-of_mem i (x ∷ xs) h (Memᴰ.tail m) = ground (arith, any_available-of_mem i xs h m)

  pub any_available-none :
      (is : List ℕ)
      → ((i : ℕ) → Memᴰ i is → is_available keys now excluded i ≡ false)
      → any_available keys now excluded is ≡ false
  unfolding any_available
  any_available-none [] h = refl
  any_available-none (i ∷ is) h =
      ground (arith, h i (Memᴰ.head refl), any_available-none is (λ j m. h j (Memᴰ.tail m)))

module _ {F : Type 0} (now : Time) (f : KeyState F → KeyState F) where
  ready_at-modify :
      ((k : KeyState F) → is_ready now (f k) ≡ is_ready now k)
      → (keys : List (KeyState F)) (i j : ℕ)
      → ready_at now (get_elem? (modify keys i f) j) ≡ ready_at now (get_elem? keys j)
  ready_at-modify h [] i j = refl
  ready_at-modify h (k ∷ ks) zero zero = h k
  ready_at-modify h (k ∷ ks) zero (suc j) = refl
  ready_at-modify h (k ∷ ks) (suc i) zero = refl
  ready_at-modify h (k ∷ ks) (suc i) (suc j) = ready_at-modify h ks i j

  -- A change of one key that keeps its readiness keeps the availability of all.
  pub available-modify :
      ((k : KeyState F) → is_ready now (f k) ≡ is_ready now k)
      → (keys : List (KeyState F)) (i j : ℕ) (excluded : Excluded)
      → is_available (modify keys i f) now excluded j ≡ is_available keys now excluded j
  unfolding is_available
  available-modify h keys i j excluded = rw (ready_at-modify h keys i j)

-- The indexes of a range, and no others.
pub mem-range_from : (i n j : ℕ) → i ≤ j → j < i + n → Memᴰ j (range_from i n)
mem-range_from i zero j h k = absurd (omega arith)
mem-range_from i (suc n) j h k = elim (ℕ_discrete j i) [
  | yes e ↦ Memᴰ.head e
  | no ne ↦ Memᴰ.tail (mem-range_from (suc i) n j (omega arith) (omega arith))
]

pub lt-of_mem_range : (i n j : ℕ) → Memᴰ j (range_from i n) → j < i + n
lt-of_mem_range i zero j m = elim m [ ]
lt-of_mem_range i (suc n) j (Memᴰ.head e) = omega arith
lt-of_mem_range i (suc n) j (Memᴰ.tail m) = omega (arith, lt-of_mem_range (suc i) n j m)
