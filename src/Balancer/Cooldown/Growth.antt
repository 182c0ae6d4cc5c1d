-- ===== src/Balancer/Cooldown/Growth.antt =====
-- How far `scaledCooldownDuration` of internal/balancer/pool.go grows.
use native.Mathlib.Nat.{pow-suc, pow-zero}
use jc_proxy.Prelude.{
  ℕ, zero, suc, ◌+◌, ◌-◌, ◌*◌, ◌^◌, ◌≤◌, ◌<◌, ◌≡◌, ◌⊎◌, inl, inr, ◌∙◌, ap, min, some, none, arith,
  ltb, leb, Bool-cases, ltb→lt, ◌/◌, false,
}
use jc_proxy.Prelude.Int.{double_pow, longest, wrap_int64-mul, leb_ℤ, pos}
use jc_proxy.Balancer.Cooldown.{scaled_cooldown_duration, doubled, scale}

pow_pos : (n : ℕ) → 1 ≤ 2 ^ n
pow_pos zero = omega arith
pow_pos (suc n) = omega (arith, pow-suc 2 n, pow_pos n)

le-mul_pos : (a b : ℕ) → 1 ≤ b → a ≤ a * b
le-mul_pos a b h = grind arith

doubled_lem :
    (n f : ℕ)
    → 0 < f
    → f ≤ longest
    → ((doubled n (pos f) ≡ some (pos (f * 2 ^ n))) × (f * 2 ^ n ≤ longest))
      ⊎ ((doubled n (pos f) ≡ none) × (longest < f * 2 ^ n))
unfolding doubled
doubled_lem zero f p h = inl (ap (λ (t : ℕ). some (pos t)) (omega arith), omega arith)
doubled_lem (suc n) f p h = elim (Bool-cases (ltb 4611686018427387903 (f + 0))) [
  | inl big ↦ inr (
    rw big,
    omega (
      arith,
      double_pow f n,
      le-mul_pos (f * 2) (2 ^ n) (pow_pos n),
      ltb→lt 4611686018427387903 (f + 0) big,
    ),
  )
  | inr small ↦
      rw (small, wrap_int64-mul f 2 (ground arith), double_pow f n)
        (doubled_lem n (f * 2) (omega arith) (ground arith))
]

div_bound : (b m : ℕ) → 0 < m → b ≤ longest / m → b * m ≤ longest
div_bound b m p h = grind arith

div_bound_lt : (b m : ℕ) → 0 < m → longest / m < b → longest < b * m
div_bound_lt b m p h = grind arith

scale_lem : (b m : ℕ) → 0 < m → scale (pos b) (some (pos m)) ≡ pos (min (b * m) longest)
scale_lem b m p = elim (Bool-cases (ltb (longest / m + 0) (b + 0))) [
  | inl big ↦
      let over : longest < b * m = div_bound_lt b m p (ground arith) in
      rw big (ap pos (omega arith))
  | inr small ↦
      let fits : b * m ≤ longest = div_bound b m p (ground arith) in
      rw (small, wrap_int64-mul b m fits) (ap pos (omega arith))
]

level_test : (b : ℕ) → 0 < b → leb_ℤ (pos b) (pos 0) ≡ false
level_test b p = ground arith

-- A positive cooldown within int64 doubles with each level after the first, up to the largest
-- Duration.
pub scaled_cooldown-eq :
    (level b : ℕ)
    → 0 < b
    → b ≤ longest
    → scaled_cooldown_duration level (pos b) ≡ pos (min (b * 2 ^ (level - 1)) longest)
unfolding scaled_cooldown_duration
scaled_cooldown-eq level b p h = elim (Bool-cases (leb level 1)) [
  | inl first ↦ let e : level - 1 ≡ 0 = ground arith in rw (e, pow-zero) (ground arith)
  | inr later ↦ elim (doubled_lem (level - 1) 1 (omega arith) (omega arith)) [
    | inl (e, _) ↦
        rw (level_test b p, later, e)
          (scale_lem b (1 * 2 ^ (level - 1)) (omega (arith, pow_pos (level - 1)))
            ∙ ap (λ (t : ℕ). pos (min t longest)) (omega arith))
    | inr (e, over) ↦
        let far : longest < b * 2 ^ (level - 1) = omega (arith, le-mul_pos (2 ^ (level - 1)) b p) in
        rw (level_test b p, later, e) (ap pos (omega arith))
  ]
]

-- A scaled cooldown is never shorter than its base.
pub base-le-scaled :
    (level b : ℕ)
    → 0 < b
    → b ≤ longest
    → (d : ℕ) × (scaled_cooldown_duration level (pos b) ≡ pos d) × (b ≤ d)
base-le-scaled level b p h = (
  min (b * 2 ^ (level - 1)) longest,
  scaled_cooldown-eq level b p h,
  omega (arith, le-mul_pos b (2 ^ (level - 1)) (pow_pos (level - 1))),
)
