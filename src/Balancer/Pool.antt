-- ===== src/Balancer/Pool.antt =====
-- internal/balancer/pool.go: the pool, how it is made, and which of its keys can be picked. Indexes
-- are natural numbers, so the guards `idx < 0` of the source are vacuous; `p.mu` is held in every
-- call, so each is one function on the pool. `map[int]struct{}` is a test.
pub mod Availability
pub mod Inflight
pub mod Retired
use Prim.Native.String.{String}
use text.Mathlib.Text.{◌==◌ as str_eq}
use jc_proxy.Prelude.{
  ℕ, ◌+◌, Bool, true, false, ◌||◌, List, [], ◌∷◌, Option, none, some, if◌then◌else◌, length,
  get_elem?, modify, range_from,
}
use jc_proxy.Prelude.Int.{ℤ, Time, Duration, zero_time, min_int64}
use jc_proxy.Prelude.Text.{trim_space, is_empty}
use jc_proxy.Prelude.Float.{FloatOps}
use jc_proxy.Keystore.Status.{normalize_status, key_status_disabled_auto}
use jc_proxy.Keystore.RuntimeStats.{RuntimeStats}
use jc_proxy.Balancer.Handle.{Handle, new_handle, sample_freshness}
use jc_proxy.Balancer.KeyState.{KeyState, is_ready, disable, enable, add_offset}

pub data Strategy : Type 0 where
  round_robin random least_used least_requests lowest_latency highest_success adaptive : Strategy

pub record Pool (F : Type 0) : Type 0 where
  pub strategy : Strategy
  pub keys : List (KeyState F)
  pub rr_idx : ℕ
  -- `exploration.credit`.
  pub credit : ℕ

pub record KeyConfig (F : Type 0) : Type 0 where
  pub key : String
  pub status : String
  pub disable_reason : String
  pub disabled_at : Option Time
  pub disabled_by : String
  pub runtime_stats : RuntimeStats F
  pub version : ℤ
  pub stats : Option (Handle F)

-- The switch of `NewPoolWithConfigs`; `none` is the error "invalid strategy".
unfoldable pub parse_strategy : String → Option Strategy
parse_strategy s =
    if str_eq s "round_robin"
    then some round_robin
    else if str_eq s "random"
    then some random
    else if str_eq s "least_used"
    then some least_used
    else if str_eq s "least_requests"
    then some least_requests
    else if str_eq s "lowest_latency"
    then some lowest_latency
    else if str_eq s "highest_success"
    then some highest_success
    else if str_eq s "adaptive"
    then some adaptive
    else none

module _ {F : Type 0} ⦃fl : FloatOps F⦄ where
  handle_of : KeyConfig F → Option (Handle F) → Handle F
  handle_of cfg none = new_handle cfg.runtime_stats
  handle_of cfg (some h) = h

  new_key : Duration → String → KeyConfig F → KeyState F
  unfolding handle_of
  new_key created_at key cfg = record {
    key = key;
    status = normalize_status cfg.status;
    disable_reason = trim_space cfg.disable_reason;
    disabled_at = cfg.disabled_at;
    disabled_by = trim_space cfg.disabled_by;
    version = cfg.version;
    inflight = 0;
    failures = 0;
    cooldown_until = zero_time;
    cooldown_level = 0;
    stats = handle_of cfg cfg.stats;
    retired = false;
    last_attempt = min_int64;
    sample_expires = add_offset created_at sample_freshness;
    next_explore = min_int64;
    live_samples = 0;
    failed_samples = 0;
    stats_generation = 0;
  }

  new_keys : Duration → List (KeyConfig F) → List (KeyState F)
  unfolding new_key
  new_keys created_at [] = []
  new_keys created_at (cfg ∷ cfgs) =
      let rest = new_keys created_at cfgs in
      let key = trim_space cfg.key in
      if is_empty key then rest else new_key created_at key cfg ∷ rest

  pool_of : List (KeyState F) → Option Strategy → Option (Pool F)
  pool_of keys none = none
  pool_of keys (some s) = some (record { strategy = s; keys = keys; rr_idx = 0; credit = 0 })

  -- `NewPoolWithConfigs`, at a time since the scheduler's epoch.
  unfoldable pub new_pool : Duration → String → List (KeyConfig F) → Option (Pool F)
  unfolding parse_strategy new_keys pool_of
  new_pool created_at strategy cfgs = pool_of (new_keys created_at cfgs) (parse_strategy strategy)

abbrev pub Excluded : Type 0
Excluded = ℕ → Bool

abbrev ready_at : {F : Type 0} → Time → Option (KeyState F) → Bool
ready_at now none = false
ready_at now (some k) = is_ready now k

module _ {F : Type 0} where
  -- `isAvailableLocked`, over the keys of the pool.
  unfoldable pub is_available : List (KeyState F) → Time → Excluded → ℕ → Bool
  is_available keys now excluded idx =
      if excluded idx then false else ready_at now (get_elem? keys idx)

  -- What the loops over `allowed`, or over all keys where it is nil, go through.
  abbrev pub candidates : List (KeyState F) → Option (List ℕ) → List ℕ
  candidates keys none = range_from 0 (length keys)
  candidates keys (some allowed) = allowed

  unfoldable pub any_available : List (KeyState F) → Time → Excluded → List ℕ → Bool
  unfolding is_available
  any_available keys now excluded [] = false
  any_available keys now excluded (i ∷ is) =
      is_available keys now excluded i || any_available keys now excluded is

  -- `HasAvailableAllowed`.
  unfoldable pub has_available : Time → Excluded → Option (List ℕ) → Pool F → Bool
  unfolding any_available
  has_available now excluded allowed p =
      any_available p.keys now excluded (candidates p.keys allowed)

  -- `totalRequestsLocked`: the handle of a key in a pool is never nil.
  unfoldable pub total_requests : List (KeyState F) → ℕ → ℕ
  total_requests keys idx = elim (get_elem? keys idx) [ none ↦ 0 | some k ↦ k.stats.total_requests ]

  unfoldable pub inflight_of : List (KeyState F) → ℕ → ℕ
  inflight_of keys idx = elim (get_elem? keys idx) [ none ↦ 0 | some k ↦ k.inflight ]

  add_totals : List (KeyState F) → List ℕ → ℕ × ℕ → ℕ × ℕ
  unfolding total_requests inflight_of
  add_totals keys [] sums = sums
  add_totals keys (i ∷ is) (n, t) =
      add_totals keys is (n + inflight_of keys i, t + total_requests keys i)

  -- `LoadTotals`.
  unfoldable pub load_totals : Option (List ℕ) → Pool F → ℕ × ℕ
  unfolding add_totals
  load_totals allowed p = add_totals p.keys (candidates p.keys allowed) (0, 0)

  unfoldable pub at : ℕ → (KeyState F → KeyState F) → Pool F → Pool F
  at idx f p = record p { keys = modify p.keys idx f }

  find_from : ℕ → String → List (KeyState F) → Option ℕ
  find_from i key [] = none
  find_from i key (k ∷ ks) =
      let rest = find_from (i + 1) key ks in if str_eq k.key key then some i else rest

  -- `findIndexLocked`.
  unfoldable pub find_index : String → Pool F → Option ℕ
  unfolding find_from
  find_index key p = find_from 0 (trim_space key) p.keys

  at_found : (KeyState F → KeyState F) → Pool F → Option ℕ → Pool F × Bool
  unfolding at
  at_found f p none = (p, false)
  at_found f p (some idx) = (at idx f p, true)

  unfoldable pub disable_key : Time → String → String → String → Pool F → Pool F × Bool
  unfolding find_index at_found
  disable_key now key reason by p =
      at_found (disable now key_status_disabled_auto reason by) p (find_index key p)

  -- `EnableKey`, and `RecoverKey`, whose body is the same.
  unfoldable pub enable_key : String → Pool F → Pool F × Bool
  unfolding find_index at_found
  enable_key key p = at_found enable p (find_index key p)

  retire_all : List (KeyState F) → List (KeyState F)
  retire_all [] = []
  retire_all (k ∷ ks) = record k { retired = true } ∷ retire_all ks

  unfoldable pub retire : Pool F → Pool F
  unfolding retire_all
  retire p = record p { keys = retire_all p.keys }
