-- ===== src/Keystore/Status/Normal.antt =====
-- The normal form of a status, and of a text.
use Prim.Native.String.{String}
use jc_proxy.Prelude.Text.{
  is_empty, append, trim_space, rune_count, take_runes, rune_count-append, rune_count-take_runes,
}
use jc_proxy.Keystore.RuntimeStats.{normalize_runtime_last_error}
use jc_proxy.Prelude.{leb, leb→le, Bool-cases, ◌≤◌, ◌≡◌, ◌⊎◌, inl, inr, arith}
use jc_proxy.Keystore.Status.{
  key_status_active, key_status_disabled_manual, key_status_disabled_auto, normalize_trimmed,
  normalize_status,
}

abbrev pub IsStatus : String → Type 0
IsStatus s =
    (s ≡ key_status_active) ⊎ (s ≡ key_status_disabled_manual) ⊎ (s ≡ key_status_disabled_auto)

normalize_trimmed-IsStatus : (s : String) → IsStatus (normalize_trimmed s)
unfolding normalize_trimmed
normalize_trimmed-IsStatus s = ground arith

IsStatus-normalize : (s : String) → IsStatus s → normalize_status s ≡ s
unfolding normalize_status
IsStatus-normalize s (inl e) = rw e
IsStatus-normalize s (inr (inl e)) = rw e
IsStatus-normalize s (inr (inr e)) = rw e

-- The status that is stored is one of the three that the store knows, and normalizing it again
-- leaves it.
pub normalize_status-IsStatus :
    (status : String)
    → IsStatus (normalize_status status)
      × (normalize_status (normalize_status status) ≡ normalize_status status)
unfolding normalize_status
normalize_status-IsStatus status =
    let known = normalize_trimmed-IsStatus (trim_space status) in
    (known, IsStatus-normalize (normalize_trimmed (trim_space status)) known)

shortened : (m : String) → rune_count (append (take_runes 237 m) "...") ≤ 240
shortened m = omega (arith, rune_count-append (take_runes 237 m) "...", rune_count-take_runes 237 m)

-- A recorded error message is never longer than 240 code points.
pub rune_count-normalize_runtime_last_error :
    (message : String) → rune_count (normalize_runtime_last_error message) ≤ 240
unfolding normalize_runtime_last_error
rune_count-normalize_runtime_last_error message =
    elim (Bool-cases (is_empty (trim_space message))) [
      | inl e ↦ rw e (omega arith)
      | inr e ↦ elim (Bool-cases (leb (rune_count (trim_space message)) 240)) [
        | inl fits ↦ rw (e, fits) (leb→le _ _ fits)
        | inr long ↦ rw (e, long) (shortened (trim_space message))
      ]
    ]
