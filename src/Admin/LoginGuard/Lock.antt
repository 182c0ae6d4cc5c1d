-- ===== src/Admin/LoginGuard/Lock.antt =====
-- What the guard of internal/admin/login_guard.go promises.
use Prim.Native.String.{String}
use jc_proxy.Prelude.{
  le→leb, ◌==◌, ℕ, ◌+◌, ◌-◌, ◌≤◌, ◌<◌, ◌≡◌, ◌∙◌, true, false, none, some, arith, Bool-cases, inl,
  inr, if◌then◌else◌,
}
use jc_proxy.Prelude.Int.{add_pos, pos, longest, Time, time_sub, time_sub_pos, after}
use jc_proxy.Prelude.Text.{is_empty}
use jc_proxy.Prelude.Table.{lookup, put, lookup-put, lookup-remove, lookup-keep_if}
use jc_proxy.Admin.LoginGuard.{
  entry_of, LoginGuard, LoginAttempt, normalize_entry, is_kept, prune, checked, blocked,
  failed_entry, failed, lock_duration, succeeded,
}

-- An entry that is locked from an instant on, for a while.
abbrev locked : ℕ → ℕ → ℕ → LoginAttempt
locked k n d = record { failures = k + 1; last_failure = pos n; locked_until = pos (n + d) }

locked-is_kept :
    (g : LoginGuard) (k n d : ℕ) → 0 < n → 0 < d → is_kept g (pos n) (locked k n d) ≡ true
unfolding is_kept
locked-is_kept g k n d p q = ground arith

locked-normalize :
    (g : LoginGuard) (k n d u w : ℕ)
    → g.window ≡ pos w
    → 0 < n
    → u < d
    → u ≤ w
    → w ≤ longest
    → normalize_entry g (locked k n d) (pos (n + u)) ≡ locked k n d
unfolding normalize_entry
locked-normalize g k n d u w e p q h l =
    rw (time_sub_pos (n + u) n (omega arith) (omega arith), e) (ground arith)

suc_test : (k : ℕ) → ((k + 1) == 0) ≡ false
suc_test k = ground arith

rest_lem :
    (n d u : ℕ)
    → u < d
    → d ≤ longest
    → (if after (pos (n + d)) (pos (n + u))
        then some (time_sub (pos (n + d)) (pos (n + u)))
        else none)
      ≡ some (pos (d - u))
rest_lem n d u h k = rw (time_sub_pos (n + d) (n + u) (omega arith) (omega arith)) (ground arith)

failed-window :
    (g : LoginGuard) (key : String) (now : Time) → (failed now key g).0.window ≡ g.window
unfolding failed prune
failed-window g key now = ground arith

failed_entry-locked :
    (g : LoginGuard) (n d : ℕ) (key : String)
    → g.limit ≤ (failed_entry (pos n) key g).failures
    → lock_duration g ((failed_entry (pos n) key g).failures - g.limit) ≡ pos d
    → failed_entry (pos n) key g
      ≡ locked (normalize_entry g (entry_of (lookup g.attempts key)) (pos n)).failures n d
unfolding failed_entry
failed_entry-locked g n d key h e = rw (le→leb _ _ h, e, add_pos n d)

blocked-found :
    (g : LoginGuard) (key : String) (t : Time) (k n d : ℕ)
    → is_empty key ≡ false
    → lookup g.attempts key ≡ some (locked k n d)
    → normalize_entry g (locked k n d) t ≡ locked k n d
    → (blocked t key g).1
      ≡ (if after (pos (n + d)) t then some (time_sub (pos (n + d)) t) else none)
unfolding blocked checked
blocked-found g key t k n d e l same = rw (e, l, same, suc_test k)

failed-lookup :
    (g : LoginGuard) (key : String) (n k d : ℕ)
    → is_empty key ≡ false
    → 0 < n
    → 0 < d
    → failed_entry (pos n) key g ≡ locked k n d
    → lookup (failed (pos n) key g).0.attempts key ≡ some (locked k n d)
unfolding failed prune
failed-lookup g key n k d e p q same =
    rw (e, same)
      (lookup-keep_if (is_kept g (pos n)) (put g.attempts key (locked k n d)) key (locked k n d)
        (lookup-put g.attempts key (locked k n d)) (locked-is_kept g k n d p q))

-- A failure that reaches the limit locks the address: at every instant from then on, and before the
-- lock ends, the address is blocked for exactly the rest of the lock. The failure happens after the
-- zero instant, and the lock is no longer than the window, which is within int64.
pub failed-blocked :
    (g : LoginGuard) (key : String) (n u w d : ℕ)
    → is_empty key ≡ false
    → 0 < n
    → g.window ≡ pos w
    → w ≤ longest
    → g.limit ≤ (failed_entry (pos n) key g).failures
    → lock_duration g ((failed_entry (pos n) key g).failures - g.limit) ≡ pos d
    → d ≤ w
    → u < d
    → (blocked (pos (n + u)) key (failed (pos n) key g).0).1 ≡ some (pos (d - u))
failed-blocked g key n u w d e p win fits h lock short early =
    let k = (normalize_entry g (entry_of (lookup g.attempts key)) (pos n)).failures in
    let g' = (failed (pos n) key g).0 in
    blocked-found g' key (pos (n + u)) k n d e
      (failed-lookup g key n k d e p (omega arith) (failed_entry-locked g n d key h lock))
      (locked-normalize g' k n d u w (failed-window g key (pos n) ∙ win) p early (omega arith) fits)
    ∙ rest_lem n d u early (omega arith)

-- After a successful login the address is not blocked.
pub succeeded-blocked :
    (g : LoginGuard) (key : String) (t : Time) → (blocked t key (succeeded key g)).1 ≡ none
unfolding blocked succeeded checked
succeeded-blocked g key t = elim (Bool-cases (is_empty key)) [
  | inl e ↦ rw e
  | inr e ↦ rw (e, lookup-remove g.attempts key)
]
