-- ===== src/Keystore/Examples.antt =====
-- Runs of the key store's records.
use jc_proxy.Prelude.Order.{text_lt}
use Prim.Native.String.{String}
use jc_proxy.Prelude.{[], ◌∷◌, map, not, ◌&&◌}
use jc_proxy.Prelude.Text.{is_empty, trim_space}
use jc_proxy.Keystore.Record.{has_key, normalize_keys}
use jc_proxy.Keystore.Record.Keys.{Increasing, normalize_keys-KeysOf}
use jc_proxy.Prelude.{ℕ, ◌≡◌, refl}
use jc_proxy.Prelude.Float.{milli}
use jc_proxy.Keystore.Status.{key_status_disabled_auto, normalize_status}
use jc_proxy.Keystore.RuntimeStats.{
  RuntimeStats, zero_stats, delta_since, apply_delta, recent_equal,
}
use jc_proxy.Keystore.RuntimeStats.Deltas.{SameTotals, apply_delta-delta_since}

normalize_test : normalize_status "  disabled_auto\n" ≡ key_status_disabled_auto
unfolding normalize_status
normalize_test = refl

abbrev before : RuntimeStats ℕ
before = record zero_stats { total_requests = 7; success_count = 5 }

abbrev later : RuntimeStats ℕ
later = record zero_stats {
  total_requests = 9;
  success_count = 6;
  rate_limit_count = 1;
  last_status = 429;
  last_error = "slow down";
}

abbrev gain : RuntimeStats ℕ
gain = record zero_stats {
  total_requests = 2;
  success_count = 1;
  rate_limit_count = 1;
  last_status = 429;
  last_error = "slow down";
}

apply_delta-delta_since_example : SameTotals (apply_delta before gain) later
unfolding delta_since recent_equal
apply_delta-delta_since_example = apply_delta-delta_since later before gain refl

normalize_keys-KeysOf_example :
    Increasing (normalize_keys (" b " ∷ "a" ∷ "" ∷ "b" ∷ []))
    × ((k : String)
        → has_key k (normalize_keys (" b " ∷ "a" ∷ "" ∷ "b" ∷ []))
          ≡ (not (is_empty k) && has_key k (map trim_space (" b " ∷ "a" ∷ "" ∷ "b" ∷ []))))
normalize_keys-KeysOf_example = normalize_keys-KeysOf (" b " ∷ "a" ∷ "" ∷ "b" ∷ [])

normalize_keys_test : normalize_keys (" b " ∷ "a" ∷ "" ∷ "b" ∷ []) ≡ "a" ∷ "b" ∷ []
unfolding normalize_keys trim_space text_lt
normalize_keys_test = refl
