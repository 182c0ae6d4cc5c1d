-- ===== src/Admin/LoginGuard/Examples.antt =====
-- An address that fails for the fifth time.
use jc_proxy.Prelude.{◌+◌, ◌*◌, ◌-◌, ◌^◌, ◌≡◌, refl, [], ◌∷◌, some, min, arith}
use jc_proxy.Prelude.Int.{pos, zero_time, second, minute, saturate, ◌-ℤ◌}
use jc_proxy.Prelude.Table.{lookup}
use jc_proxy.Admin.LoginGuard.{
  LoginGuard, new_login_guard, blocked, failed, failed_entry, lock_duration, normalize_entry,
}
use jc_proxy.Admin.LoginGuard.Delay.{lock_duration-eq}
use jc_proxy.Admin.LoginGuard.Lock.{failed-blocked}

-- Four failures, the last at 60 seconds.
abbrev guard : LoginGuard
guard = record new_login_guard {
  attempts =
      record {
        name = "192.0.2.1";
        value = record { failures = 4; last_failure = pos (60 * second); locked_until = zero_time };
      }
      ∷ [];
}

lock_duration-eq_example :
    lock_duration guard 3 ≡ pos (min (15 * second * 2 ^ 3) (2 * 450000000000))
lock_duration-eq_example =
    lock_duration-eq guard (15 * second) 450000000000 3 refl refl (omega arith)

failed-blocked_example :
    (blocked
      (pos (90 * second + 1000))
      "192.0.2.1"
      (failed (pos (90 * second)) "192.0.2.1" guard).0).1
    ≡ some (pos (15 * second - 1000))
unfolding failed_entry normalize_entry lookup lock_duration saturate ◌-ℤ◌
failed-blocked_example =
    failed-blocked guard "192.0.2.1" (90 * second) 1000 (30 * minute) (15 * second) refl
      (omega arith) refl (omega arith) (omega arith) refl (omega arith) (omega arith)
