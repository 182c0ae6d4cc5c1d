-- ===== src/Admin/LoginGuard/Delay.antt =====
-- How `lockDuration` of internal/admin/login_guard.go grows.
use native.Mathlib.Nat.{pow-suc}
use jc_proxy.Prelude.{
  ◌<◌, false, true, ℕ, zero, suc, ◌*◌, ◌^◌, ◌≤◌, ◌≡◌, inl, inr, ap, ◌∙◌, sym, min, arith,
  Bool-cases,
}
use jc_proxy.Prelude.Int.{double_pow, pos, leb_ℤ, half, wrap_int64-mul, longest}
use jc_proxy.Admin.LoginGuard.{LoginGuard, delay_loop, lock_duration}

le-mul_pow : (a n : ℕ) → a ≤ a * 2 ^ n
le-mul_pow a zero = omega arith
le-mul_pow a (suc n) =
    omega (arith, pow-suc 2 n, le-mul_pow a n, ap (λ (t : ℕ). a * t) (pow-suc 2 n))

le-of_leb : (m d : ℕ) → leb_ℤ (pos m) (pos d) ≡ true → m ≤ d
le-of_leb m d h = ground arith

lt-of_leb : (m d : ℕ) → leb_ℤ (pos m) (pos d) ≡ false → d < m
lt-of_leb m d h = ground arith

delay_loop-eq :
    (g : LoginGuard) (m rounds d : ℕ)
    → g.max_delay ≡ pos (2 * m)
    → 2 * m ≤ longest
    → delay_loop g rounds (pos d) ≡ pos (min (d * 2 ^ rounds) (2 * m))
unfolding delay_loop
delay_loop-eq g m zero d e k = rw e (ground arith)
delay_loop-eq g m (suc n) d e k =
    let middle : half g.max_delay ≡ pos m = ap half e ∙ ap pos (omega arith) in
    elim (Bool-cases (leb_ℤ (half g.max_delay) (pos d))) [
      | inl big ↦
          let far : m ≤ d = le-of_leb m d (ap (λ x. leb_ℤ x (pos d)) (sym middle) ∙ big) in
          rw big (e ∙ ap pos (omega (arith, double_pow d n, le-mul_pow (d * 2) n)))
      | inr small ↦
          let near : d < m = lt-of_leb m d (ap (λ x. leb_ℤ x (pos d)) (sym middle) ∙ small) in
          rw (small, wrap_int64-mul d 2 (omega arith), double_pow d n)
            (delay_loop-eq g m n (d * 2) e k)
    ]

-- With an even longest lock within int64, the lock for a step doubles with each step from the base
-- delay, up to the longest.
pub lock_duration-eq :
    (g : LoginGuard) (b m step : ℕ)
    → g.base_delay ≡ pos b
    → g.max_delay ≡ pos (2 * m)
    → 2 * m ≤ longest
    → lock_duration g step ≡ pos (min (b * 2 ^ step) (2 * m))
unfolding lock_duration
lock_duration-eq g b m step e h k = ap (delay_loop g step) e ∙ delay_loop-eq g m step b h k
