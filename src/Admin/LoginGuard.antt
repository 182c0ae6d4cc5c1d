-- ===== src/Admin/LoginGuard.antt =====
-- internal/admin/login_guard.go: an address is locked after failed logins. A call holds `g.mu` while
-- it touches the table, so it is one function; the clock reading is an argument.
pub mod Delay
pub mod Lock
pub mod Examples
use Prim.Native.String.{String}
use jc_proxy.Prelude.{
  ℕ, zero, suc, ◌+◌, ◌-◌, ◌*◌, Bool, true, false, not, ◌&&◌, ◌||◌, Option, none, some, [], leb,
  ◌==◌, if◌then◌else◌,
}
use jc_proxy.Prelude.Int.{
  ℤ, pos, ◌+ℤ◌, ◌*ℤ◌, ltb_ℤ, leb_ℤ, Time, Duration, zero_time, is_zero_time, after, add_duration,
  time_sub, second, minute, wrap_int64, half,
}
use jc_proxy.Prelude.Text.{is_empty}
use jc_proxy.Prelude.Table.{Table, lookup, put, remove, keep_if}

pub record LoginAttempt : Type 0 where
  pub failures : ℕ
  pub last_failure : Time
  pub locked_until : Time

pub record LoginGuard : Type 0 where
  pub attempts : Table LoginAttempt
  pub window : Duration
  pub limit : ℕ
  pub base_delay : Duration
  pub max_delay : Duration

abbrev pub zero_attempt : LoginAttempt
zero_attempt = record { failures = 0; last_failure = zero_time; locked_until = zero_time }

abbrev pub login_guard_entry_grace : Duration
login_guard_entry_grace = pos (60 * minute)

abbrev pub new_login_guard : LoginGuard
new_login_guard = record {
  attempts = [];
  window = pos (30 * minute);
  limit = 5;
  base_delay = pos (15 * second);
  max_delay = pos (15 * minute);
}

unfoldable pub normalize_entry : LoginGuard → LoginAttempt → Time → LoginAttempt
normalize_entry g entry now =
    if is_zero_time entry.last_failure
    then entry
    else if ltb_ℤ g.window (time_sub now entry.last_failure)
    then zero_attempt
    else if not (is_zero_time entry.locked_until) && not (after entry.locked_until now)
    then record entry { locked_until = zero_time }
    else entry

-- The loop of `lockDuration`, `rounds` of it left.
unfoldable pub delay_loop : LoginGuard → ℕ → Duration → Duration
delay_loop g zero delay = if ltb_ℤ g.max_delay delay then g.max_delay else delay
delay_loop g (suc rounds) delay =
    let rest = delay_loop g rounds (wrap_int64 (delay *ℤ pos 2)) in
    if leb_ℤ (half g.max_delay) delay then g.max_delay else rest

unfoldable pub lock_duration : LoginGuard → ℕ → Duration
unfolding delay_loop
lock_duration g step = delay_loop g step g.base_delay

-- The entries that `pruneLocked` does not delete.
unfoldable pub is_kept : LoginGuard → Time → LoginAttempt → Bool
is_kept g now entry =
    if entry.failures == 0
    then false
    else let expired_lock = is_zero_time entry.locked_until || not (after entry.locked_until now) in
      let stale_failure =
        not (is_zero_time entry.last_failure)
        && ltb_ℤ (wrap_int64 (g.window +ℤ login_guard_entry_grace))
            (time_sub now entry.last_failure) in
      not (expired_lock && stale_failure)

unfoldable pub prune : Time → LoginGuard → LoginGuard
unfolding is_kept
prune now g = record g { attempts = keep_if (is_kept g now) g.attempts }

-- What is left of a lock; `none` is `false` with no time.
abbrev remaining : LoginAttempt → Time → Option Duration
remaining entry now =
    if after entry.locked_until now then some (time_sub entry.locked_until now) else none

checked : LoginGuard → Time → String → Option LoginAttempt → LoginGuard × Option Duration
unfolding normalize_entry
checked g now key none = (g, none)
checked g now key (some found) =
    let entry = normalize_entry g found now in
    if entry.failures == 0
    then (record g { attempts = remove g.attempts key }, none)
    else (record g { attempts = put g.attempts key entry }, remaining entry now)

-- `Blocked`; `none` is the result `(0, false)`.
unfoldable pub blocked : Time → String → LoginGuard → LoginGuard × Option Duration
unfolding checked
blocked now key g = if is_empty key then (g, none) else checked g now key (lookup g.attempts key)

-- `g.attempts[key]`, whose value for a missing key is the zero value.
abbrev entry_of : Option LoginAttempt → LoginAttempt
entry_of none = zero_attempt
entry_of (some entry) = entry

-- The entry that `Failed` stores.
unfoldable pub failed_entry : Time → String → LoginGuard → LoginAttempt
unfolding normalize_entry lock_duration
failed_entry now key g =
    let entry = normalize_entry g (entry_of (lookup g.attempts key)) now in
    let failures = entry.failures + 1 in
    record {
      failures = failures;
      last_failure = now;
      locked_until =
          if leb g.limit failures
          then add_duration now (lock_duration g (failures - g.limit))
          else entry.locked_until;
    }

-- `Failed`; `none` is the result 0.
unfoldable pub failed : Time → String → LoginGuard → LoginGuard × Option Duration
unfolding failed_entry prune
failed now key g =
    let entry = failed_entry now key g in
    if is_empty key
    then (g, none)
    else (prune now (record g { attempts = put g.attempts key entry }), remaining entry now)

unfoldable pub succeeded : String → LoginGuard → LoginGuard
succeeded key g = if is_empty key then g else record g { attempts = remove g.attempts key }
