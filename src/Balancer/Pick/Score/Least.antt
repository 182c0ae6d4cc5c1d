-- ===== src/Balancer/Pick/Score/Least.antt =====
-- `pickByScoreLocked` takes a candidate with the least score, and of those the next one in turn.
use mathlib.Core.List.{Memᴰ}
use mathlib.Core.Path.{subst}
use jc_proxy.Prelude.{
  ℕ, ◌%◌, ◌≤◌, ◌<◌, ◌≡◌, ◌⊎◌, refl, Bool, true, false, ◌&&◌, ◌||◌, List, Option, none, some,
  some_inj, inl, inr, arith, length, Bool-cases, ltb,
}
use jc_proxy.Prelude.Int.{Time}
use jc_proxy.Prelude.Float.{FloatOps}
use jc_proxy.Balancer.KeyState.{KeyState}
use jc_proxy.Balancer.Pool.{Pool, Excluded, is_available, candidates}
use jc_proxy.Balancer.Pool.Availability.{available-lt}
use jc_proxy.Balancer.Pick.Distance.{rotated, distance, Best, best_index}
use jc_proxy.Balancer.Pick.Distance.Rotation.{mem-rotation}
use jc_proxy.Balancer.Pick.Distance.Scans.{scan_covers}
use jc_proxy.Balancer.Pick.Score.{
  LoadScore, score_less, score_equal, better, score_scan, pick_by_score,
}

module _ {F : Type 0} where
  -- The one score comes before the other: by the primary load, then the secondary, then the
  -- distance from the cursor.
  abbrev pub Precedes : LoadScore F → ℕ → LoadScore F → ℕ → Type 0
  Precedes s g t h =
      (s.primary < t.primary)
      ⊎ ((s.primary ≡ t.primary)
          × ((s.secondary < t.secondary) ⊎ ((s.secondary ≡ t.secondary) × (g ≤ h))))

  Precedes-trans :
      (s t u : LoadScore F) (g h i : ℕ) → Precedes s g t h → Precedes t h u i → Precedes s g u i
  Precedes-trans s t u g h i p q = ground arith

module _ {F : Type 0} ⦃fl : FloatOps F⦄ where
  abbrev beats : LoadScore F → ℕ → LoadScore F → ℕ → Bool
  beats s g t h = score_less s t || (score_equal s t && ltb g h)

  beats-Precedes :
      (s t : LoadScore F) (g h : ℕ)
      → fl.equal s.cost t.cost ≡ true
      → beats s g t h ≡ true
      → Precedes s g t h
  unfolding score_less score_equal
  beats-Precedes s t g h e b = ground arith

  beaten-Precedes :
      (s t : LoadScore F) (g h : ℕ)
      → fl.equal s.cost t.cost ≡ true
      → beats s g t h ≡ false
      → Precedes t h s g
  unfolding score_less score_equal
  beaten-Precedes s t g h e b = ground arith

module _ {F : Type 0} ⦃fl : FloatOps F⦄ (keys : List (KeyState F)) (now : Time)
    (excluded : Excluded) (rr : ℕ) (score : ℕ → LoadScore F)
    (flat : (i j : ℕ) → fl.equal (score i).cost (score j).cost ≡ true) where
  abbrev gap : ℕ → ℕ
  gap i = distance (length keys) rr i

  -- The best so far is a candidate with its own score and distance.
  abbrev IsScored : Option (Best (LoadScore F)) → Type 0
  IsScored none = Unit
  IsScored (some b) = (b.score ≡ score b.index) × (b.gap ≡ gap b.index)

  abbrev Leads : Option (Best (LoadScore F)) → ℕ → Type 0
  Leads none j = ⊥
  Leads (some b) j = Precedes (score b.index) (gap b.index) (score j) (gap j)

  better-IsScored :
      (i : ℕ) (s : Option (Best (LoadScore F)))
      → IsScored s
      → IsScored (better i (score i) (gap i) s)
  unfolding better
  better-IsScored i none h = (refl, refl)
  better-IsScored i (some b) h = elim (Bool-cases (beats (score i) (gap i) b.score b.gap)) [
    | inl e ↦ rw e (refl, refl)
    | inr e ↦ rw e h
  ]

  better-Leads :
      (i : ℕ) (s : Option (Best (LoadScore F)))
      → IsScored s
      → Leads (better i (score i) (gap i) s) i
  unfolding better
  better-Leads i none h = omega arith
  better-Leads i (some b) (e, d) = elim (Bool-cases (beats (score i) (gap i) b.score b.gap)) [
    | inl hit ↦ rw hit (inr (refl, inr (refl, omega arith)))
    | inr miss ↦ rw miss (
        beaten-Precedes (score i) (score b.index) (gap i) (gap b.index) (flat i b.index)
          (rw (← e, ← d) miss))
  ]

  better-Leads_still :
      (i j : ℕ) (s : Option (Best (LoadScore F)))
      → IsScored s
      → Leads s j
      → Leads (better i (score i) (gap i) s) j
  unfolding better
  better-Leads_still i j none h l = absurd l
  better-Leads_still i j (some b) (e, d) l =
      elim (Bool-cases (beats (score i) (gap i) b.score b.gap)) [
        | inl hit ↦ rw hit (
            Precedes-trans (score i) (score b.index) (score j) (gap i) (gap b.index) (gap j)
              (beats-Precedes (score i) (score b.index) (gap i) (gap b.index) (flat i b.index)
                (rw (← e, ← d) hit))
              l)
        | inr miss ↦ rw miss l
      ]

  led :
      (s : Option (Best (LoadScore F))) (i j : ℕ)
      → best_index s ≡ some i
      → Leads s j
      → Precedes (score i) (gap i) (score j) (gap j)
  led none i j e l = absurd l
  led (some b) i j e l = subst (λ k. Precedes (score k) (gap k) (score j) (gap j)) (some_inj e) l

  score_scan-Leads :
      (is : List ℕ) (j : ℕ)
      → Memᴰ j is
      → is_available keys now excluded j ≡ true
      → Leads (score_scan keys now excluded rr score is) j
  unfolding score_scan
  score_scan-Leads is j m a =
      scan_covers (λ _. is_available keys now excluded) (λ i. better i (score i) (gap i))
        (is_available keys now excluded) IsScored (λ s i p. refl) (λ _. Unit {0})
        (λ i s l a' p. better-IsScored i s p) Leads (λ i s l a' p. better-Leads i s p)
        (λ i k s l a' p r. better-Leads_still i k s p r) is none j (λ i n. tt) tt m a

-- The key that is picked by a score comes before every other available candidate, if the costs of
-- all scores compare equal: it has the least primary load, of those the least secondary load, and
-- of those the least distance from the cursor.
pub pick_by_score-Precedes :
    {F : Type 0} ⦃fl : FloatOps F⦄ (score : ℕ → LoadScore F)
    (flat : (i j : ℕ) → fl.equal (score i).cost (score j).cost ≡ true) (now : Time)
    (excluded : Excluded) (allowed : Option (List ℕ)) (p : Pool F) (i j : ℕ)
    → pick_by_score score now excluded allowed p ≡ some i
    → Memᴰ j (candidates p.keys allowed)
    → is_available p.keys now excluded j ≡ true
    → Precedes
        (score i)
        (distance (length p.keys) p.rr_idx i)
        (score j)
        (distance (length p.keys) p.rr_idx j)
unfolding pick_by_score
pick_by_score-Precedes score flat now excluded (some allowed) p i j e m a =
    led p.keys now excluded p.rr_idx score flat _ i j e
      (score_scan-Leads p.keys now excluded p.rr_idx score flat allowed j m a)
pick_by_score-Precedes score flat now excluded none p i j e m a =
    let n = length p.keys in
    let there = mem-rotation n (p.rr_idx % n) j (available-lt p.keys now excluded j a) in
    led p.keys now excluded p.rr_idx score flat _ i j e (
      score_scan-Leads p.keys now excluded p.rr_idx score flat (rotated n (p.rr_idx % n) 0 n) j
        there a)
