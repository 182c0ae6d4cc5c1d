-- ===== src/Gateway/StatsRegistry.antt =====
-- internal/gateway/runtime_stats_registry.go: one statistics handle for each key of each vendor. A
-- pointer to a handle is its place in the registry; a registry that is nil gives handles of their own.
pub mod Live
use Prim.Native.String.{String}
use text.Mathlib.Text.{◌==◌ as str_eq}
use jc_proxy.Prelude.{Bool, ◌||◌, Option, none, some, List, [], ◌∷◌, if◌then◌else◌}
use jc_proxy.Prelude.Float.{FloatOps}
use jc_proxy.Prelude.Result.{Result, ok, err}
use jc_proxy.Prelude.Table.{Table, Entry, lookup, put}
use jc_proxy.Prelude.Text.{trim_space, is_empty}
use jc_proxy.Keystore.RuntimeStats.{RuntimeStats}
use jc_proxy.Keystore.FileStore.{StoreError}
use jc_proxy.Balancer.Handle.{Handle, new_handle, reset}

pub record RuntimeStatsRegistry (F : Type 0) : Type 0 where
  pub vendors : Table (Table (Handle F))

module _ {F : Type 0} where
  abbrev pub handles_of : Option (Table (Handle F)) → Table (Handle F)
  handles_of none = []
  handles_of (some t) = t

  -- The handle that the registry has for a key.
  unfoldable pub handle_at : RuntimeStatsRegistry F → String → String → Option (Handle F)
  handle_at r vendor_id key = lookup (handles_of (lookup r.vendors vendor_id)) key

  unfoldable pub new_runtime_stats_registry : RuntimeStatsRegistry F
  new_runtime_stats_registry = record { vendors = [] }

  put_handle : String → String → Handle F → RuntimeStatsRegistry F → RuntimeStatsRegistry F
  put_handle vendor_id key h r = record {
    vendors = put r.vendors vendor_id (put (handles_of (lookup r.vendors vendor_id)) key h);
  }

module _ {F : Type 0} ⦃fl : FloatOps F⦄ where
  found_or_made :
      String
      → String
      → RuntimeStats F
      → RuntimeStatsRegistry F
      → Option (Handle F)
      → RuntimeStatsRegistry F × Handle F
  unfolding put_handle new_handle
  found_or_made vendor_id key baseline r (some h) = (r, h)
  found_or_made vendor_id key baseline r none =
      let h = new_handle baseline in (put_handle vendor_id key h r, h)

  unfoldable pub handle :
      String → String → RuntimeStats F → RuntimeStatsRegistry F → RuntimeStatsRegistry F × Handle F
  unfolding found_or_made handle_at new_handle
  handle vendor raw baseline r =
      let vendor_id = trim_space vendor in
      let key = trim_space raw in
      if is_empty vendor_id || is_empty key
      then (r, new_handle baseline)
      else found_or_made vendor_id key baseline r (handle_at r vendor_id key)

  unfoldable pub reset_handles : Table (Handle F) → Table (Handle F)
  unfolding reset
  reset_handles [] = []
  reset_handles (e ∷ es) = record { name = e.name; value = reset e.value } ∷ reset_handles es

  unfoldable pub reset_vendors : String → Table (Table (Handle F)) → Table (Table (Handle F))
  unfolding reset_handles
  reset_vendors vendor_id [] = []
  reset_vendors vendor_id (e ∷ es) =
      let rest = reset_vendors vendor_id es in
      if is_empty vendor_id || str_eq e.name vendor_id
      then record { name = e.name; value = reset_handles e.value } ∷ rest
      else e ∷ rest

  unfoldable pub persisted :
      {S A : Type 0}
      → String
      → RuntimeStatsRegistry F
      → S × Result StoreError A
      → S × (RuntimeStatsRegistry F × Result StoreError A)
  unfolding reset_vendors
  persisted vendor_id r (s, err e) = (s, (r, err e))
  persisted vendor_id r (s, ok a) =
      (s, (record { vendors = reset_vendors vendor_id r.vendors }, ok a))

  -- The handles stay locked while `persist` runs, so it is one step.
  unfoldable pub reset_registry :
      {S A : Type 0}
      → String
      → (S → S × Result StoreError A)
      → RuntimeStatsRegistry F
      → S
      → S × (RuntimeStatsRegistry F × Result StoreError A)
  unfolding persisted
  reset_registry vendor_id persist r s = persisted vendor_id r (persist s)
