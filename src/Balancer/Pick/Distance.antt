-- ===== src/Balancer/Pick/Distance.antt =====
-- internal/balancer/pool.go: the distance from the round-robin cursor, and what the scans remember.
pub mod Scans
pub mod Rotation
use jc_proxy.Prelude.{
  [], ltb, ℕ, ◌+◌, ◌-◌, ◌%◌, Option, none, some, Bool, List, ◌∷◌, if◌then◌else◌, zero, suc,
}

-- The distance of a candidate from the round-robin cursor. The cursor is at most the number of
-- keys, so the difference is exact.
abbrev pub distance : ℕ → ℕ → ℕ → ℕ
distance n rr candidate = (candidate + n - rr) % n

-- The same as `pickPerformanceLocked` works it out.
abbrev pub distance_from : ℕ → ℕ → ℕ → ℕ
distance_from n rr i = if ltb i rr then i + n - rr else i - rr

-- A candidate as the loops remember it.
pub record Best (S : Type 0) : Type 0 where
  pub index : ℕ
  pub score : S
  pub gap : ℕ

abbrev pub best_index : {S : Type 0} → Option (Best S) → Option ℕ
best_index none = none
best_index (some b) = some b.index

-- `for _, i := range is { consider(i) }`, where `consider` returns at once unless the test passes.
unfoldable pub scan : {S : Type 0} → (S → ℕ → Bool) → (ℕ → S → S) → List ℕ → S → S
scan test step [] s = s
scan test step (i ∷ is) s = scan test step is (if test s i then step i s else s)

-- The order in which `pickByScoreLocked` and, from 0, `pickPerformanceLocked` look at the keys.
unfoldable pub rotated : ℕ → ℕ → ℕ → ℕ → List ℕ
rotated n start offset zero = []
rotated n start offset (suc rounds) = ((start + offset) % n) ∷ rotated n start (offset + 1) rounds
