-- ===== src/Keystore/FileStore/Calls.antt =====
-- internal/keystore/file_store.go: a call of the store, and a sequence of calls.
use Prim.Native.String.{String}
use jc_proxy.Prelude.{List, [], ◌∷◌, Option, none, some}
use jc_proxy.Prelude.Float.{FloatOps}
use jc_proxy.Prelude.Int.{ℤ, Time}
use jc_proxy.Prelude.Result.{Result, ok, err}
use jc_proxy.Prelude.Table.{Table}
use jc_proxy.Keystore.FileStore.{FileStore, Faults, StoreError}
use jc_proxy.Keystore.FileStore.Operations.{
  replace, append, delete, set_remark, set_status, set_status_if_version, delete_vendor,
}
use jc_proxy.Keystore.FileStore.Statistics.{
  RuntimeStatsDelta, apply_runtime_stats_deltas, reset_runtime_stats,
}

-- The calls that change the store.
pub data Operation (F : Type 0) : Type 0 where
  op_replace op_append op_delete : String → List String → Operation F
  op_set_remark : String → String → String → Operation F
  op_set_status : String → String → String → String → String → Operation F
  op_set_status_if_version : String → String → ℤ → String → String → String → Operation F
  op_delete_vendor op_reset_runtime_stats : String → Operation F
  op_apply_runtime_stats_deltas : Table (List (RuntimeStatsDelta F)) → Operation F

-- An operation, with the clock reading and the errors of the file system that it meets.
pub record Call (F : Type 0) : Type 0 where
  pub operation : Operation F
  pub now : Time
  pub faults : Faults

-- The count that a call returns is dropped.
abbrev pub outcome :
    {F A : Type 0} → FileStore F × Result StoreError A → FileStore F × Option StoreError
outcome (fs, ok a) = (fs, none)
outcome (fs, err e) = (fs, some e)

module _ {F : Type 0} ⦃fl : FloatOps F⦄ where
  unfoldable pub perform :
      Faults → Time → Operation F → FileStore F → FileStore F × Option StoreError
  perform faults now (op_replace v ks) fs = outcome (replace faults now v ks fs)
  perform faults now (op_append v ks) fs = outcome (append faults now v ks fs)
  perform faults now (op_delete v ks) fs = outcome (delete faults v ks fs)
  perform faults now (op_set_remark v k m) fs = outcome (set_remark faults now v k m fs)
  perform faults now (op_set_status v k s why who) fs =
      outcome (set_status faults now v k s why who fs)
  perform faults now (op_set_status_if_version v k n s why who) fs =
      outcome (set_status_if_version faults now v k n s why who fs)
  perform faults now (op_delete_vendor v) fs = outcome (delete_vendor faults v fs)
  perform faults now (op_reset_runtime_stats v) fs = outcome (reset_runtime_stats faults now v fs)
  perform faults now (op_apply_runtime_stats_deltas deltas) fs =
      outcome (apply_runtime_stats_deltas faults now deltas fs)

  unfoldable pub perform_all : List (Call F) → FileStore F → FileStore F
  unfolding perform
  perform_all [] fs = fs
  perform_all (c ∷ cs) fs = perform_all cs (perform c.faults c.now c.operation fs).0
