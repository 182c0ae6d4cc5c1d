-- ===== src/Balancer/KeyState.antt =====
-- internal/balancer/pool.go and performance.go: the state of one key and what the pool does to it.
pub mod Health
use Prim.Native.String.{String}
use jc_proxy.Prelude.{
  ℕ, ◌+◌, ◌-◌, ◌*◌, ◌^◌, Bool, false, not, ◌&&◌, ◌||◌, Option, none, some, ltb, ◌==◌, if◌then◌else◌,
}
use jc_proxy.Prelude.Int.{
  ℤ, pos, ◌+ℤ◌, ltb_ℤ, leb_ℤ, eqb_ℤ, Time, Duration, zero_time, after, minute, min_int64,
  wrap_int64,
}
use jc_proxy.Prelude.Text.{trim_space}
use jc_proxy.Keystore.Status.{key_status_active, normalize_status, is_active_status}
use jc_proxy.Keystore.RuntimeStats.{normalize_runtime_last_error}
use jc_proxy.Balancer.Handle.{Handle, clear_last_error, sample_freshness}

pub record KeyState (F : Type 0) : Type 0 where
  pub key : String
  pub status : String
  pub disable_reason : String
  pub disabled_at : Option Time
  pub disabled_by : String
  pub version : ℤ
  pub inflight : ℕ
  pub failures : ℕ
  pub cooldown_until : Time
  pub cooldown_level : ℕ
  pub stats : Handle F
  pub retired : Bool
  pub last_attempt : Duration
  pub sample_expires : Duration
  pub next_explore : Duration
  pub live_samples : ℕ
  pub failed_samples : ℕ
  pub stats_generation : ℕ

abbrev pub add_offset : Duration → Duration → Duration
add_offset a b = wrap_int64 (a +ℤ b)

unfoldable pub explore_delay : ℕ → Duration
explore_delay failed =
    let delay = pos (minute * 2 ^ (failed - 1)) in
    if ltb_ℤ sample_freshness delay then sample_freshness else delay

module _ {F : Type 0} where
  -- The part of `isAvailableLocked` that reads the key.
  unfoldable pub is_ready : Time → KeyState F → Bool
  is_ready now k =
      if k.retired || not (is_active_status k.status)
      then false
      else not (after k.cooldown_until now)

  -- `currentVersionLocked`; `none` is an empty `expected`.
  unfoldable pub is_current : Option ℤ → KeyState F → Bool
  is_current none k = not k.retired
  is_current (some expected) k = not k.retired && eqb_ℤ k.version expected

  -- The decrement of `releaseInflightLocked`, under its test.
  unfoldable pub drop_inflight : KeyState F → KeyState F
  drop_inflight k = if ltb 0 k.inflight then record k { inflight = k.inflight - 1 } else k

  -- `recordFailureLocked`.
  unfoldable pub record_failure : KeyState F → KeyState F
  record_failure k = record k {
    failures = k.failures + 1;
    cooldown_level = if ltb k.cooldown_level 10 then k.cooldown_level + 1 else k.cooldown_level;
  }

  -- `disableLocked`.
  unfoldable pub disable : Time → String → String → String → KeyState F → KeyState F
  disable now status reason by k = record k {
    status = normalize_status status;
    disable_reason = normalize_runtime_last_error reason;
    disabled_by = trim_space by;
    disabled_at = some now;
    cooldown_until = zero_time;
    cooldown_level = 0;
    failures = 0;
  }

  -- `enableLocked`.
  unfoldable pub enable : KeyState F → KeyState F
  unfolding clear_last_error
  enable k = record k {
    status = key_status_active;
    disable_reason = "";
    disabled_at = none;
    disabled_by = "";
    cooldown_until = zero_time;
    cooldown_level = 0;
    failures = 0;
    stats = clear_last_error k.stats;
  }

  unfoldable pub sync_stats_generation : ℕ → Duration → KeyState F → KeyState F
  sync_stats_generation generation tick k =
      if k.stats_generation == generation then k else record k {
        stats_generation = generation;
        last_attempt = min_int64;
        next_explore = min_int64;
        sample_expires = add_offset tick sample_freshness;
        live_samples = 0;
        failed_samples = 0;
      }

  abbrev live_after : Duration → KeyState F → ℕ
  live_after tick k =
      let live = if leb_ℤ k.sample_expires tick then 0 else k.live_samples in
      if ltb live 2 then live + 1 else live

  unfoldable pub note_sample : ℕ → Duration → Bool → KeyState F → KeyState F
  unfolding sync_stats_generation explore_delay
  note_sample generation tick success k =
      let k' = sync_stats_generation generation tick k in
      let failed = if ltb k'.failed_samples 4 then k'.failed_samples + 1 else k'.failed_samples in
      record k' {
        live_samples = live_after tick k';
        sample_expires = add_offset tick sample_freshness;
        failed_samples = if success then 0 else failed;
        next_explore = if success then min_int64 else add_offset tick (explore_delay failed);
      }
