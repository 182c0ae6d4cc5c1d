-- ===== src/Gateway/StatsPersister/Examples.antt =====
-- Runs of the persister against a ledger of one counter.
use jc_proxy.Prelude.{
  ℕ, ◌≤◌, ◌+◌, ◌≡◌, refl, List, [], ◌∷◌, none, some, false, arith, if◌then◌else◌, ◌-◌, ltb,
}
use jc_proxy.Prelude.Float.{milli}
use jc_proxy.Prelude.Result.{Result, ok, err}
use jc_proxy.Prelude.Table.{Table, lookup, put}
use jc_proxy.Prelude.Text.{trim_space}
use jc_proxy.Keystore.RuntimeStats.{RuntimeStats, zero_stats, recent_equal}
use jc_proxy.Keystore.RuntimeStats.Deltas.{Dominates}
use jc_proxy.Keystore.FileStore.{StoreError, write_failed}
use jc_proxy.Keystore.FileStore.Statistics.{RuntimeStatsDelta}
use jc_proxy.Gateway.StatsRegistry.{handle_at, handle, new_runtime_stats_registry}
use jc_proxy.Gateway.StatsPersister.{
  PersisterError, KeyStats, Baseline, StatsStore, RuntimeStatsPersister, flush_locked,
  vendor_deltas,
}
use jc_proxy.Gateway.StatsPersister.Deltas.{stats_at, delta_at, AllUnique}
use jc_proxy.Prelude.Table.Unique.{Unique}
use jc_proxy.Gateway.StatsPersister.Baseline.{Sound}
use jc_proxy.Gateway.StatsPersister.Ledger.{total, count, counted, to_send, vendor_deltas-counted}
use jc_proxy.Gateway.StatsPersister.Run.{flush_all, accepted_all, flush_locked-accepted}
use jc_proxy.Gateway.StatsPersister.Reset.{Live, reset_live, reset_live-ok, reset_found, selects}

abbrev requests : ℕ → RuntimeStats ℕ
requests n = record zero_stats { total_requests = n; success_count = n }

abbrev counters : ℕ → Baseline ℕ
counters n = record { name = "v1"; value = record { name = "a"; value = requests n } ∷ [] } ∷ []

counters-Unique : (n : ℕ) → Unique (counters n)
unfolding Unique lookup
counters-Unique n = (refl, tt)

counters-AllUnique : (n : ℕ) → AllUnique (counters n)
unfolding AllUnique Unique lookup
counters-AllUnique n = ((refl, tt), tt)

vendor_deltas-counted_example :
    counted total (delta_at (vendor_deltas (counters 9) (counters 7)) "v1" "a")
    ≡ to_send total (stats_at (counters 9) "v1" "a") (stats_at (counters 7) "v1" "a")
vendor_deltas-counted_example =
    vendor_deltas-counted total (counters 9) (counters 7) "v1" "a" (counters-Unique 9)
      (counters-AllUnique 9)

growth_test : to_send total (stats_at (counters 9) "v1" "a") (stats_at (counters 7) "v1" "a") ≡ 2
unfolding to_send lookup
growth_test = refl

fall_test : to_send total (stats_at (counters 2) "v1" "a") (stats_at (counters 7) "v1" "a") ≡ 2
unfolding to_send lookup
fall_test = refl

-- A store that keeps the total of one key, and refuses its first batch.
record Ledger : Type 0 where
  refusals : ℕ
  credited : ℕ

abbrev credit_batch :
    Ledger → Table (List (RuntimeStatsDelta ℕ)) → Ledger × Result StoreError (Unit {0})
credit_batch s ds =
    if ltb 0 s.refusals
    then (record s { refusals = s.refusals - 1 }, err (write_failed "disk"))
    else (record s { credited = s.credited + counted total (delta_at ds "v1" "a") }, ok tt)

abbrev ledger_store : StatsStore Ledger ℕ
ledger_store = record {
  apply_deltas = λ ds s. credit_batch s ds;
  reset_stats = some (λ v s. (record s { credited = 0 }, ok 1));
}

abbrev snapshot : ℕ → Table (List (KeyStats ℕ))
snapshot n =
    record { name = "v1"; value = record { key = " a "; runtime_stats = requests n } ∷ [] } ∷ []

abbrev persister : RuntimeStatsPersister ℕ
persister = record { last = counters 3; stopped = false }

abbrev ledger : Ledger
ledger = record { refusals = 1; credited = 40 }

persister-Sound : Sound persister.last
persister-Sound = record { vendors = counters-Unique 3; keys = counters-AllUnique 3 }

requests-Dominates : (m n : ℕ) → m ≤ n → Dominates (requests n) (requests m)
requests-Dominates m n h = record {
  total = h;
  success = h;
  unauthorized = omega arith;
  forbidden = omega arith;
  rate_limit = omega arith;
  other_error = omega arith;
}

abbrev after_refusal : Ledger × RuntimeStatsPersister ℕ
after_refusal = flush_all ledger_store (snapshot 5 ∷ []) persister ledger

refusal_test : after_refusal.0 ≡ record { refusals = 0; credited = 40 }
unfolding flush_all trim_space put lookup recent_equal
refusal_test = refl

abbrev end : Ledger × (RuntimeStatsPersister ℕ × Result PersisterError (Unit {0}))
end = flush_locked ledger_store (snapshot 8) after_refusal.1 after_refusal.0

flush_locked-accepted_example :
    accepted_all ledger_store total "v1" "a" (snapshot 5 ∷ snapshot 8 ∷ []) persister ledger
      + counted total (stats_at persister.last "v1" "a")
    ≡ count total (requests 8)
unfolding flush_all lookup trim_space put recent_equal
flush_locked-accepted_example =
    flush_locked-accepted ledger_store total "v1" "a" (snapshot 5 ∷ []) (snapshot 8) persister
      ledger (requests 8) end.0 (end.1).0 persister-Sound
      (requests-Dominates 3 5 (omega arith), (requests-Dominates 5 8 (omega arith), tt)) refl refl

abbrev live : Live Ledger ℕ
live = record {
  store = ledger;
  registry = (handle "v1" "a" (requests 3) new_runtime_stats_registry).0;
  persister = persister;
}

reset_live-ok_example :
    (stats_at (reset_live ledger_store " v1 " live).0.persister.last "v1" "a"
      ≡ (if selects (trim_space " v1 ") "v1" then none else stats_at live.persister.last "v1" "a"))
    × (handle_at (reset_live ledger_store " v1 " live).0.registry "v1" "a" ≡ (
        if selects (trim_space " v1 ") "v1"
        then reset_found (handle_at live.registry "v1" "a")
        else handle_at live.registry "v1" "a"))
unfolding reset_live
reset_live-ok_example =
    reset_live-ok ledger_store " v1 " live (reset_live ledger_store " v1 " live).0 1 refl "v1" "a"
