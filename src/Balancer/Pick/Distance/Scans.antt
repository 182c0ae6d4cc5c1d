-- ===== src/Balancer/Pick/Distance/Scans.antt =====
-- The rules of `scan`: an invariant of its state, and what each candidate that it considered leaves.
use mathlib.Core.List.{Memᴰ}
use jc_proxy.Prelude.{ℕ, ◌≡◌, Bool, true, List, [], ◌∷◌, inl, inr, Bool-cases, ◌∙◌, sym, refl, ap}
use jc_proxy.Balancer.Pick.Distance.{scan}

module _ {S : Type 0} (test : S → ℕ → Bool) (step : ℕ → S → S) (avail : ℕ → Bool) (P : S → Type 0)
    (agree : (s : S) (i : ℕ) → P s → test s i ≡ avail i) where
  -- The test of the scan is a fixed one, and `P` is kept by each step.
  module _ (L : ℕ → Type 0)
      (keep : (i : ℕ) (s : S) → L i → avail i ≡ true → P s → P (step i s)) where
    pub scan_inv :
        (is : List ℕ) (s : S) → ((i : ℕ) → Memᴰ i is → L i) → P s → P (scan test step is s)
    unfolding scan
    scan_inv [] s all h = h
    scan_inv (i ∷ is) s all h = elim (Bool-cases (test s i)) [
      | inl hit ↦ rw hit (
          scan_inv is (step i s) (λ j m. all j (Memᴰ.tail m))
            (keep i s (all i (Memᴰ.head refl)) (sym (agree s i h) ∙ hit) h))
      | inr miss ↦ rw miss (scan_inv is s (λ j m. all j (Memᴰ.tail m)) h)
    ]

    module _ (R : S → ℕ → Type 0)
        (beat : (i : ℕ) (s : S) → L i → avail i ≡ true → P s → R (step i s) i)
        (stay : (i j : ℕ) (s : S) → L i → avail i ≡ true → P s → R s j → R (step i s) j) where
      pub scan_stays :
          (is : List ℕ) (s : S) (j : ℕ)
          → ((i : ℕ) → Memᴰ i is → L i)
          → P s
          → R s j
          → R (scan test step is s) j
      unfolding scan
      scan_stays [] s j all h r = r
      scan_stays (i ∷ is) s j all h r = elim (Bool-cases (test s i)) [
        | inl hit ↦
            let ok = sym (agree s i h) ∙ hit in
            let l = all i (Memᴰ.head refl) in
            rw hit (
              scan_stays is (step i s) j (λ j' m. all j' (Memᴰ.tail m)) (keep i s l ok h)
                (stay i j s l ok h r))
        | inr miss ↦ rw miss (scan_stays is s j (λ j' m. all j' (Memᴰ.tail m)) h r)
      ]

      pub scan_covers :
          (is : List ℕ) (s : S) (j : ℕ)
          → ((i : ℕ) → Memᴰ i is → L i)
          → P s
          → Memᴰ j is
          → avail j ≡ true
          → R (scan test step is s) j
      unfolding scan
      scan_covers [] s j all h m a = elim m [ ]
      scan_covers (i ∷ is) s j all h (Memᴰ.head e) a =
          let ok : avail i ≡ true = sym (ap avail e) ∙ a in
          let l = all i (Memᴰ.head refl) in
          rw (agree s i h ∙ ok, e)
            (scan_stays is (step i s) i (λ j' m. all j' (Memᴰ.tail m)) (keep i s l ok h)
              (beat i s l ok h))
      scan_covers (i ∷ is) s j all h (Memᴰ.tail m) a = elim (Bool-cases (test s i)) [
        | inl hit ↦ rw hit (
            scan_covers is (step i s) j (λ j' m'. all j' (Memᴰ.tail m'))
              (keep i s (all i (Memᴰ.head refl)) (sym (agree s i h) ∙ hit) h) m a)
        | inr miss ↦ rw miss (scan_covers is s j (λ j' m'. all j' (Memᴰ.tail m')) h m a)
      ]
