-- ===== src/Balancer/Pick/Score.antt =====
-- internal/balancer/pool.go: `pickByScoreLocked` and its two scores.
pub mod Choice
pub mod Least
use jc_proxy.Prelude.{
  ℕ, ◌+◌, ◌%◌, Bool, not, ◌&&◌, ◌||◌, List, Option, none, some, ltb, ◌==◌, if◌then◌else◌, length,
}
use jc_proxy.Prelude.Int.{Time}
use jc_proxy.Prelude.Float.{FloatOps}
use jc_proxy.Balancer.KeyState.{KeyState}
use jc_proxy.Balancer.Pool.{Pool, Excluded, is_available, total_requests, inflight_of}
use jc_proxy.Balancer.Pick.Distance.{distance, Best, best_index, scan, rotated}

pub record LoadScore (F : Type 0) : Type 0 where
  pub primary : ℕ
  pub secondary : ℕ
  pub cost : F

module _ {F : Type 0} where
  unfoldable pub score_candidates : Option (List ℕ) → Pool F → List ℕ
  unfolding rotated
  score_candidates none p = let n = length p.keys in rotated n (p.rr_idx % n) 0 n
  score_candidates (some allowed) p = allowed

module _ {F : Type 0} ⦃fl : FloatOps F⦄ where
  unfoldable pub score_less : LoadScore F → LoadScore F → Bool
  score_less s t =
      if not (fl.equal s.cost t.cost)
      then fl.less s.cost t.cost
      else if not (s.primary == t.primary)
      then ltb s.primary t.primary
      else ltb s.secondary t.secondary

  score_equal : LoadScore F → LoadScore F → Bool
  score_equal s t = s.primary == t.primary && s.secondary == t.secondary && fl.equal s.cost t.cost

  -- The body of `consider`, of a candidate that is available.
  better : ℕ → LoadScore F → ℕ → Option (Best (LoadScore F)) → Option (Best (LoadScore F))
  unfolding score_less score_equal
  better i score gap none = some (record { index = i; score = score; gap = gap })
  better i score gap (some b) =
      if score_less score b.score || (score_equal score b.score && ltb gap b.gap)
      then some (record { index = i; score = score; gap = gap })
      else some b

  score_scan :
      List (KeyState F)
      → Time
      → Excluded
      → ℕ
      → (ℕ → LoadScore F)
      → List ℕ
      → Option (Best (LoadScore F))
  unfolding is_available better scan
  score_scan keys now excluded rr score is =
      scan (λ _. is_available keys now excluded)
        (λ i. better i (score i) (distance (length keys) rr i)) is none

  unfoldable pub pick_by_score :
      (ℕ → LoadScore F) → Time → Excluded → Option (List ℕ) → Pool F → Option ℕ
  unfolding score_scan score_candidates
  pick_by_score score now excluded allowed p =
      best_index (score_scan p.keys now excluded p.rr_idx score (score_candidates allowed p))

  unfoldable pub used_score : Pool F → ℕ → LoadScore F
  used_score p i = record {
    primary = inflight_of p.keys i;
    secondary = total_requests p.keys i;
    cost = fl.lit 0 1;
  }

  unfoldable pub requests_score : Pool F → ℕ → LoadScore F
  requests_score p i = record {
    primary = total_requests p.keys i + inflight_of p.keys i;
    secondary = inflight_of p.keys i;
    cost = fl.lit 0 1;
  }
