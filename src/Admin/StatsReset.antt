-- ===== src/Admin/StatsReset.antt =====
-- internal/admin/stats_reset.go: the request to reset statistics. The configuration, the records of
-- the key store and the persister's reset are arguments; the audit log and HTTP are not modelled.
pub mod Guard
pub mod Examples
use Prim.Native.String.{String}
use text.Mathlib.Text.{◌==◌ as str_eq}
use jc_proxy.Prelude.{ℕ, Bool, not, Option, none, some, List, if◌then◌else◌}
use jc_proxy.Prelude.Result.{Result, ok, err}
use jc_proxy.Prelude.Text.{trim_space, is_empty}
use jc_proxy.Keystore.FileStore.{StoreError, is_nil}
use jc_proxy.Keystore.Record.{Record}

pub record RuntimeStatsResetRequest : Type 0 where
  pub scope : String
  pub vendor_id : String
  pub confirmation : String

pub data ResetError : Type 0 where
  confirmation_missing vendor_with_all vendor_missing unknown_scope : ResetError
  aggregate_vendor unknown_vendor reset_unavailable : ResetError
  config_failed : String → ResetError
  records_failed : StoreError → ResetError
  reset_failed : String → ResetError

-- What the request meets: `GetConfig`, as the providers of the vendors that it configures, the key
-- store's `List`, and the persister's `Reset`, where there is a persister.
pub record ResetServices (S F : Type 0) : Type 0 where
  pub provider_of : Result String (String → Option String)
  pub list_records : String → Result StoreError (List (Record F))
  pub reset_stats : Option (String → S → S × Result String ℕ)

check_scope : String → String → Option ResetError
check_scope scope vendor_id =
    if str_eq scope "all"
    then (if is_empty vendor_id then none else some vendor_with_all)
    else if str_eq scope "vendor"
    then (if is_empty vendor_id then some vendor_missing else none)
    else some unknown_scope

-- The two checks that come before the lock.
unfoldable pub check_request : RuntimeStatsResetRequest → String → Option ResetError
unfolding check_scope
check_request req vendor_id =
    if str_eq req.confirmation "RESET"
    then check_scope req.scope vendor_id
    else some confirmation_missing

module _ {F : Type 0} where
  check_records : Result StoreError (List (Record F)) → Option ResetError
  check_records (err e) = some (records_failed e)
  check_records (ok rs) = if is_nil rs then some unknown_vendor else none

module _ {S F : Type 0} where
  check_provider : ResetServices S F → String → Option String → Option ResetError
  unfolding check_records
  check_provider services vendor_id (some provider) =
      if str_eq provider "aggregate" then some aggregate_vendor else none
  check_provider services vendor_id none = check_records (services.list_records vendor_id)

  check_configured :
      ResetServices S F → String → Result String (String → Option String) → Option ResetError
  unfolding check_provider
  check_configured services vendor_id (err e) = some (config_failed e)
  check_configured services vendor_id (ok provider_of) =
      check_provider services vendor_id (provider_of vendor_id)

  unfoldable pub check_vendor : ResetServices S F → String → String → Option ResetError
  unfolding check_configured
  check_vendor services scope vendor_id =
      if str_eq scope "vendor"
      then check_configured services vendor_id services.provider_of
      else none

module _ {S : Type 0} where
  counted_reset : S × Result String ℕ → S × Result ResetError ℕ
  counted_reset (s, ok count) = (s, ok count)
  counted_reset (s, err e) = (s, err (reset_failed e))

  perform_reset : String → S → Option (String → S → S × Result String ℕ) → S × Result ResetError ℕ
  unfolding counted_reset
  perform_reset vendor_id s none = (s, err reset_unavailable)
  perform_reset vendor_id s (some reset_stats) = counted_reset (reset_stats vendor_id s)

  unless_refused : Option ResetError → S → S × Result ResetError ℕ → S × Result ResetError ℕ
  unless_refused (some e) s done = (s, err e)
  unless_refused none s done = done

module _ {S F : Type 0} where
  unfoldable pub reset_runtime_stats :
      ResetServices S F → RuntimeStatsResetRequest → S → S × Result ResetError ℕ
  unfolding check_request check_vendor unless_refused perform_reset
  reset_runtime_stats services req s =
      let vendor_id = trim_space req.vendor_id in
      unless_refused (check_request req vendor_id) s (
        unless_refused (check_vendor services req.scope vendor_id) s
          (perform_reset vendor_id s services.reset_stats))
