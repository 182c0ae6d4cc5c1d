-- ===== src/Balancer/Pick/Picks.antt =====
-- What every picking strategy of internal/balancer promises: an available candidate, or none
-- because no candidate is available.
use mathlib.Core.List.{Memᴰ}
use mathlib.Core.Path.{subst}
use jc_proxy.Prelude.{
  ℕ, ◌<◌, ◌≡◌, ◌≢◌, refl, Bool, true, false, List, Option, none, some, ◌⊎◌, inl, inr, length,
  Bool-cases,
}
use jc_proxy.Prelude.Int.{Time}
use jc_proxy.Balancer.KeyState.{KeyState}
use jc_proxy.Balancer.Pool.{Excluded, is_available, any_available}
use jc_proxy.Balancer.Pool.Availability.{available-lt, any_available-of_mem, any_available-none}
use jc_proxy.Balancer.Pick.Distance.{scan}
use jc_proxy.Balancer.Pick.Distance.Scans.{scan_inv, scan_covers}

module _ {F : Type 0} (keys : List (KeyState F)) (now : Time) (excluded : Excluded) where
  abbrev pub Picks : List ℕ → Option ℕ → Type 0
  Picks is none = any_available keys now excluded is ≡ false
  Picks is (some i) = (is_available keys now excluded i ≡ true) × Memᴰ i is

  -- Only the candidates that are in range matter.
  pub Picks-cover :
      (is js : List ℕ) (r : Option ℕ)
      → ((i : ℕ) → i < length keys → Memᴰ i js → Memᴰ i is)
      → ((i : ℕ) → i < length keys → Memᴰ i is → Memᴰ i js)
      → Picks is r
      → Picks js r
  Picks-cover is js none back forth h = any_available-none keys now excluded js λ i m.
      elim (Bool-cases (is_available keys now excluded i)) [
        | inl a ↦
            let there = back i (available-lt keys now excluded i a) m in
            cc (any_available-of_mem keys now excluded i is a there)
        | inr u ↦ u
      ]
  Picks-cover is js (some i) back forth (a, m) = (a, forth i (available-lt keys now excluded i a) m)

  abbrev pub Held : List ℕ → Option ℕ → Type 0
  Held is none = Unit
  Held is (some i) = (is_available keys now excluded i ≡ true) × Memᴰ i is

  -- What considering a candidate does to the best so far: takes it, or keeps what there was.
  abbrev pub Moves : ℕ → Option ℕ → Option ℕ → Type 0
  Moves i before after = (after ≡ some i) ⊎ ((j : ℕ) × (before ≡ some j) × (after ≡ some j))

  Held-step :
      (is : List ℕ) (i : ℕ) (b a : Option ℕ)
      → Memᴰ i is
      → is_available keys now excluded i ≡ true
      → Moves i b a
      → Held is b
      → Held is a
  Held-step is i b a m ok (inl e) h = rw e (ok, m)
  Held-step is i b a m ok (inr (j, e, e')) h = rw e' (subst (Held is) e h)

  some_step : (i : ℕ) (b a : Option ℕ) → Moves i b a → a ≢ none
  some_step i b a (inl e) h = cc
  some_step i b a (inr (j, e, e')) h = cc

  finish :
      (is : List ℕ) (r : Option ℕ)
      → Held is r
      → ((i : ℕ) → Memᴰ i is → is_available keys now excluded i ≡ true → r ≢ none)
      → Picks is r
  finish is none held all = any_available-none keys now excluded is λ i m.
      elim (Bool-cases (is_available keys now excluded i)) [
        | inl a ↦ absurd (all i m a refl)
        | inr u ↦ u
      ]
  finish is (some i) held all = held

  module _ (is : List ℕ) {S : Type 0} (test : S → ℕ → Bool) (step : ℕ → S → S) (P : S → Type 0)
      (agree : (s : S) (i : ℕ) → P s → test s i ≡ is_available keys now excluded i)
      (keep : (i : ℕ) (s : S)
        → Memᴰ i is
        → is_available keys now excluded i ≡ true
        → P s
        → P (step i s))
      (index : S → Option ℕ)
      (moves : (i : ℕ) (s : S)
        → is_available keys now excluded i ≡ true
        → P s
        → Moves i (index s) (index (step i s))) where
    -- A scan that moves so picks as promised, and keeps what `P` says of its state.
    pub scan-Picks :
        (s : S)
        → P s
        → index s ≡ none
        → P (scan test step is s) × Picks is (index (scan test step is s))
    scan-Picks s p e = (held.0, finish is (index (scan test step is s)) held.1 covered)
      where
        Good : S → Type 0
        Good t = P t × Held is (index t)

        start : Good s
        start = (p, rw e tt)

        agree' : (t : S) (i : ℕ) → Good t → test t i ≡ is_available keys now excluded i
        agree' t i g = agree t i g.0

        keep' :
            (i : ℕ) (t : S)
            → Memᴰ i is
            → is_available keys now excluded i ≡ true
            → Good t
            → Good (step i t)
        keep' i t m a g = (
          keep i t m a g.0,
          Held-step is i (index t) (index (step i t)) m a (moves i t a g.0) g.1,
        )

        held : Good (scan test step is s)
        held =
            scan_inv test step (is_available keys now excluded) Good agree' (λ i. Memᴰ i is) keep'
              is s (λ i m. m) start

        covered :
            (i : ℕ)
            → Memᴰ i is
            → is_available keys now excluded i ≡ true
            → index (scan test step is s) ≢ none
        covered i m a =
            scan_covers test step (is_available keys now excluded) Good agree' (λ j. Memᴰ j is)
              keep' (λ t j. index t ≢ none)
              (λ j t l b g. some_step j (index t) (index (step j t)) (moves j t b g.0))
              (λ j k t l b g n. some_step j (index t) (index (step j t)) (moves j t b g.0)) is s i
              (λ j n. n) start m a
