-- ===== src/Balancer/Cooldown.antt =====
-- internal/balancer/pool.go: how a cooldown grows with its level, in int64 arithmetic.
pub mod Growth
use jc_proxy.Prelude.{ℕ, zero, suc, ◌-◌, ◌/◌, Option, none, some, leb, if◌then◌else◌}
use jc_proxy.Prelude.Int.{ℤ, pos, pos_part, ◌*ℤ◌, leb_ℤ, ltb_ℤ, max_int64, wrap_int64, Duration}

-- math.MaxInt64 / n, for n > 0.
abbrev max_int64_div : ℤ → ℤ
max_int64_div n = pos (pos_part max_int64 / pos_part n)

-- The loop over `i`; `none` is the early return of math.MaxInt64.
doubled : ℕ → ℤ → Option ℤ
unfolding wrap_int64 ◌*ℤ◌
doubled zero factor = some factor
doubled (suc rounds) factor =
    let rest = doubled rounds (wrap_int64 (factor *ℤ pos 2)) in
    if ltb_ℤ (max_int64_div (pos 2)) factor then none else rest

abbrev scale : Duration → Option ℤ → Duration
scale base none = max_int64
scale base (some factor) =
    if ltb_ℤ (max_int64_div factor) base then max_int64 else wrap_int64 (base *ℤ factor)

unfoldable pub scaled_cooldown_duration : ℕ → Duration → Duration
unfolding doubled
scaled_cooldown_duration level base =
    if leb_ℤ base (pos 0)
    then base
    else if leb level 1
    then base
    else scale base (doubled (level - 1) (pos 1))
