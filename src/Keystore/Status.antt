-- ===== src/Keystore/Status.antt =====
-- internal/keystore/store.go: the status of an upstream key and the normal form of a record.
pub mod Normal
use Prim.Native.String.{String}
use text.Mathlib.Text.{◌==◌ as str_eq}
use jc_proxy.Prelude.{Bool, ◌||◌, if◌then◌else◌}
use jc_proxy.Prelude.Int.{ℤ, pos, ◌+ℤ◌, ltb_ℤ, wrap_int64}
use jc_proxy.Prelude.Text.{trim_space}

abbrev pub key_status_active : String
key_status_active = "active"

abbrev pub key_status_disabled_manual : String
key_status_disabled_manual = "disabled_manual"

abbrev pub key_status_disabled_auto : String
key_status_disabled_auto = "disabled_auto"

normalize_trimmed : String → String
normalize_trimmed s =
    if str_eq s "" || str_eq s key_status_active
    then key_status_active
    else if str_eq s key_status_disabled_manual
    then key_status_disabled_manual
    else if str_eq s key_status_disabled_auto
    then key_status_disabled_auto
    else key_status_active

unfoldable pub normalize_status : String → String
unfolding normalize_trimmed trim_space
normalize_status status = normalize_trimmed (trim_space status)

unfoldable pub is_active_status : String → Bool
unfolding normalize_status
is_active_status status = str_eq (normalize_status status) key_status_active

unfoldable pub next_record_version : ℤ → ℤ
unfolding ◌+ℤ◌ wrap_int64
next_record_version current =
    let base = if ltb_ℤ current (pos 0) then pos 0 else current in wrap_int64 (base +ℤ pos 1)
