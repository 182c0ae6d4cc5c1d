-- ===== src/Balancer/Pick/RoundRobin/Choice.antt =====
-- What `pickRoundRobinLocked` chooses.
use mathlib.Core.List.{Memᴰ}
use jc_proxy.Prelude.{
  ℕ, zero, suc, ◌+◌, ◌%◌, ◌≡◌, refl, false, List, Option, none, some, inl, inr, arith, length,
  range_from, Bool-cases, ltb,
}
use jc_proxy.Prelude.Int.{Time}
use jc_proxy.Balancer.KeyState.{KeyState}
use jc_proxy.Balancer.Pool.{Pool, Excluded, is_available, any_available, candidates}
use jc_proxy.Balancer.Pool.Availability.{mem-range_from}
use jc_proxy.Balancer.Pick.Distance.{rotated, distance}
use jc_proxy.Balancer.Pick.Distance.Rotation.{mem-rotation}
use jc_proxy.Balancer.Pick.Picks.{Picks, Picks-cover, Moves, scan-Picks}
use jc_proxy.Balancer.Pick.RoundRobin.{rr_scan, nearer, rr_nearest, first_of_pair, pick_round_robin}

module _ {F : Type 0} (keys : List (KeyState F)) (now : Time) (excluded : Excluded) (rr : ℕ) where
  rr_scan-Picks :
      (rounds try : ℕ)
      → Picks keys now excluded
          (rotated (length keys) rr try rounds)
          (rr_scan keys now excluded rr rounds try)
  unfolding rr_scan rotated any_available
  rr_scan-Picks zero try = refl
  rr_scan-Picks (suc r) try =
      elim (Bool-cases (is_available keys now excluded ((rr + try) % length keys))) [
        | inl hit ↦ rw hit (hit, Memᴰ.head refl)
        | inr miss ↦
            rw miss
              (later (rr_scan keys now excluded rr r (try + 1)) miss (rr_scan-Picks r (try + 1)))
      ]
    where
      later :
          (r' : Option ℕ)
          → is_available keys now excluded ((rr + try) % length keys) ≡ false
          → Picks keys now excluded (rotated (length keys) rr (try + 1) r) r'
          → Picks keys now excluded (rotated (length keys) rr try (suc r)) r'
      later none miss h = rw (miss, h)
      later (some i) miss (a, m) = (a, Memᴰ.tail m)

  nearer-Moves :
      (i : ℕ) (s : Option (ℕ × ℕ))
      → Moves keys now excluded i (first_of_pair s) (first_of_pair (nearer (length keys) rr i s))
  unfolding nearer
  nearer-Moves i none = inl refl
  nearer-Moves i (some (b, g)) = elim (Bool-cases (ltb (distance (length keys) rr i) g)) [
    | inl e ↦ rw e (inl refl)
    | inr e ↦ rw e (inr (b, refl, refl))
  ]

  rr_nearest-Picks :
      (allowed : List ℕ)
      → Picks keys now excluded allowed (first_of_pair (rr_nearest keys now excluded rr allowed))
  unfolding rr_nearest
  rr_nearest-Picks allowed =
      (scan-Picks keys now excluded allowed (λ _. is_available keys now excluded)
        (nearer (length keys) rr) (λ _. Unit {0}) (λ s i p. refl) (λ i s m a p. tt) first_of_pair
        (λ i s a p. nearer-Moves i s) none tt refl).1

pub pick_round_robin-Picks :
    {F : Type 0} (now : Time) (excluded : Excluded) (allowed : Option (List ℕ)) (p : Pool F)
    → Picks p.keys now excluded
        (candidates p.keys allowed)
        (pick_round_robin now excluded allowed p)
unfolding pick_round_robin
pick_round_robin-Picks now excluded (some allowed) p =
    rr_nearest-Picks p.keys now excluded p.rr_idx allowed
pick_round_robin-Picks now excluded none p =
    let n = length p.keys in
    Picks-cover p.keys now excluded (rotated n p.rr_idx 0 n) (range_from 0 n)
      (rr_scan p.keys now excluded p.rr_idx n 0) (λ i h m. mem-rotation n p.rr_idx i h)
      (λ i h m. mem-range_from 0 n i (omega arith) (omega arith))
      (rr_scan-Picks p.keys now excluded p.rr_idx n 0)
