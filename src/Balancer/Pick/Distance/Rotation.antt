-- ===== src/Balancer/Pick/Distance/Rotation.antt =====
-- A rotation goes through all indexes, each at its distance from the start.
use mathlib.Core.List.{Memᴰ}
use native.Mathlib.Nat.{mod-lt, mod-eq_of_lt, div-add-mod, mul-add-mod_self_left}
use native.Mathlib.Decide.{dec_le}
use mathlib.Core.Path.{subst}
use jc_proxy.Prelude.{ℕ, zero, suc, ◌+◌, ◌-◌, ◌*◌, ◌/◌, ◌%◌, ◌<◌, ◌≡◌, ap, ◌∙◌, arith}
use jc_proxy.Balancer.Pick.Distance.{rotated}

mod_step : (n q i : ℕ) → i < n → (n * q + i) % n ≡ i
mod_step n q i h = mul-add-mod_self_left n q i ∙ mod-eq_of_lt h

pub rotation_hits : (n start i : ℕ) → i < n → (t : ℕ) × (t < n) × ((start + t) % n ≡ i)
rotation_hits n start i h =
    let split : n * (start / n) + start % n ≡ start = div-add-mod start n in
    let low : start % n < n = mod-lt start (omega arith) in
    elim (dec_le (start % n) i) [
      | yes below ↦ (
        i - start % n,
        omega arith,
        ap (λ (x : ℕ). x % n) (omega arith) ∙ mod_step n (start / n) i h,
      )
      | no above ↦ (
        i + n - start % n,
        omega arith,
        ap (λ (x : ℕ). x % n) (omega arith) ∙ mod_step n (start / n + 1) i h,
      )
    ]

pub mem-rotated :
    (n start offset rounds t : ℕ)
    → t < rounds
    → Memᴰ ((start + (offset + t)) % n) (rotated n start offset rounds)
unfolding rotated
mem-rotated n start offset zero t h = absurd (omega arith)
mem-rotated n start offset (suc r) zero h = Memᴰ.head (ap (λ (x : ℕ). x % n) (omega arith))
mem-rotated n start offset (suc r) (suc t) h =
    let e : offset + suc t ≡ offset + 1 + t = omega arith in
    rw e (Memᴰ.tail (mem-rotated n start (offset + 1) r t (omega arith)))

pub lt-of_mem_rotated :
    (n start offset rounds i : ℕ) → 0 < n → Memᴰ i (rotated n start offset rounds) → i < n
unfolding rotated
lt-of_mem_rotated n start offset zero i p m = elim m [ ]
lt-of_mem_rotated n start offset (suc r) i p (Memᴰ.head e) =
    omega (arith, mod-lt (start + offset) p)
lt-of_mem_rotated n start offset (suc r) i p (Memᴰ.tail m) =
    lt-of_mem_rotated n start (offset + 1) r i p m

-- All indexes stand in the rotation of length `n`.
pub mem-rotation : (n start i : ℕ) → i < n → Memᴰ i (rotated n start 0 n)
mem-rotation n start i h =
    let hit = rotation_hits n start i h in
    subst (λ j. Memᴰ j (rotated n start 0 n))
      (ap (λ (x : ℕ). (start + x) % n) (omega arith) ∙ hit.2) (mem-rotated n start 0 n hit.0 hit.1)
