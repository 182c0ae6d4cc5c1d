-- ===== src/Balancer/Pick/Score/Choice.antt =====
-- What `pickByScoreLocked` chooses.
use jc_proxy.Prelude.{
  ℕ, ◌%◌, refl, ◌&&◌, ◌||◌, List, Option, none, some, inl, inr, arith, length, range_from,
  Bool-cases, ltb,
}
use jc_proxy.Prelude.Int.{Time}
use jc_proxy.Prelude.Float.{FloatOps}
use jc_proxy.Balancer.KeyState.{KeyState}
use jc_proxy.Balancer.Pool.{Pool, Excluded, is_available, candidates}
use jc_proxy.Balancer.Pool.Availability.{mem-range_from}
use jc_proxy.Balancer.Pick.Distance.{rotated, distance, Best, best_index}
use jc_proxy.Balancer.Pick.Distance.Rotation.{mem-rotation}
use jc_proxy.Balancer.Pick.Picks.{Picks, Picks-cover, Moves, scan-Picks}
use jc_proxy.Balancer.Pick.Score.{
  LoadScore, score_less, score_equal, better, score_scan, pick_by_score,
}

module _ {F : Type 0} ⦃fl : FloatOps F⦄ (keys : List (KeyState F)) (now : Time)
    (excluded : Excluded) where
  better-Moves :
      (i gap : ℕ) (score : LoadScore F) (s : Option (Best (LoadScore F)))
      → Moves keys now excluded i (best_index s) (best_index (better i score gap s))
  unfolding better
  better-Moves i gap score none = inl refl
  better-Moves i gap score (some b) =
      elim (Bool-cases (score_less score b.score || (score_equal score b.score && ltb gap b.gap))) [
        | inl e ↦ rw e (inl refl)
        | inr e ↦ rw e (inr (b.index, refl, refl))
      ]

  score_scan-Picks :
      (rr : ℕ) (score : ℕ → LoadScore F) (is : List ℕ)
      → Picks keys now excluded is (best_index (score_scan keys now excluded rr score is))
  unfolding score_scan
  score_scan-Picks rr score is =
      (scan-Picks keys now excluded is (λ _. is_available keys now excluded)
        (λ i. better i (score i) (distance (length keys) rr i)) (λ _. Unit {0}) (λ s i p. refl)
        (λ i s m a p. tt) best_index
        (λ i s a p. better-Moves i (distance (length keys) rr i) (score i) s) none tt refl).1

pub pick_by_score-Picks :
    {F : Type 0} ⦃fl : FloatOps F⦄ (score : ℕ → LoadScore F) (now : Time) (excluded : Excluded)
    (allowed : Option (List ℕ)) (p : Pool F)
    → Picks p.keys now excluded
        (candidates p.keys allowed)
        (pick_by_score score now excluded allowed p)
unfolding pick_by_score
pick_by_score-Picks score now excluded (some allowed) p =
    score_scan-Picks p.keys now excluded p.rr_idx score allowed
pick_by_score-Picks score now excluded none p =
    let n = length p.keys in
    Picks-cover p.keys now excluded (rotated n (p.rr_idx % n) 0 n) (range_from 0 n) _
      (λ i h m. mem-rotation n (p.rr_idx % n) i h)
      (λ i h m. mem-range_from 0 n i (omega arith) (omega arith))
      (score_scan-Picks p.keys now excluded p.rr_idx score (rotated n (p.rr_idx % n) 0 n))
