-- ===== src/Gateway/ErrorPolicy.antt =====
-- internal/config/config.go and internal/gateway/key_policy.go: the policy of errors, the decision about
-- a key, and the helpers that the classification shares.
use Prim.Native.String.{String}
use jc_proxy.Prelude.{
  ℕ, Bool, true, false, not, ◌||◌, List, [], ◌∷◌, Option, none, some, ◌==◌, if◌then◌else◌,
}
use jc_proxy.Prelude.Int.{pos, ltb_ℤ, Duration}
use jc_proxy.Prelude.Text.{trim_space, is_empty}
use jc_proxy.Balancer.Settle.{AttemptAction, observe, cooldown}

pub record CooldownRule : Type 0 where
  pub enabled : Option Bool
  pub duration : Duration

pub record ResponseCooldownRule : Type 0 where
  pub status_codes : List ℕ
  pub keywords : List String
  pub duration : Duration
  pub retry_after : String

pub record AutoDisable : Type 0 where
  pub enabled : Option Bool
  pub status_codes : List ℕ
  pub keywords : List String

pub record CooldownPolicy : Type 0 where
  pub request_error : CooldownRule
  pub unauthorized : CooldownRule
  pub payment_required : CooldownRule
  pub forbidden : CooldownRule
  pub rate_limit : CooldownRule
  pub server_error : CooldownRule
  pub openai_slow_down : CooldownRule
  pub no_default_backoff : Bool
  pub response_rules : List ResponseCooldownRule

-- Without `max_attempts`, which bounds the retries of a request.
pub record FailoverPolicy : Type 0 where
  pub request_error : Option Bool
  pub unauthorized : Option Bool
  pub payment_required : Option Bool
  pub forbidden : Option Bool
  pub rate_limit : Option Bool
  pub server_error : Option Bool
  pub response_status_codes : List ℕ

-- Without `masking`, which rewrites what the client sees.
pub record ErrorPolicy : Type 0 where
  pub auto_disable : AutoDisable
  pub cooldowns : CooldownPolicy
  pub failover : FailoverPolicy

pub record KeyDecision : Type 0 where
  pub action : AttemptAction
  pub status_code : ℕ
  pub cooldown_time : Duration
  pub reason : String
  pub failover : Bool

-- What is read from an error response.
pub record ErrorResponse : Type 0 where
  pub status_code : ℕ
  pub body : String
  pub credential_code : String
  pub retry_after : Duration
  pub reason : String
  -- The reason of an automatic disabling, from what caused it.
  pub disabled_reason : String → String

abbrev pub bool_or_default : Option Bool → Bool → Bool
bool_or_default none fallback = fallback
bool_or_default (some b) fallback = b

unfoldable pub contains_status_code : List ℕ → ℕ → Bool
contains_status_code [] status = false
contains_status_code (c ∷ cs) status = c == status || contains_status_code cs status

abbrev pub any_status : List ℕ → Bool
any_status [] = false
any_status (c ∷ cs) = true

unfoldable pub has_non_empty_pattern : List String → Bool
has_non_empty_pattern [] = false
has_non_empty_pattern (p ∷ ps) = not (is_empty (trim_space p)) || has_non_empty_pattern ps

unfoldable pub max_duration : Duration → Duration → Duration
max_duration a b = if ltb_ℤ b a then a else b

-- 529, 500, 502, 503 and 504.
abbrev pub is_server_error : ℕ → Bool
is_server_error status =
    status == 529 || status == 500 || status == 502 || status == 503 || status == 504

unfoldable pub should_failover_response : ErrorPolicy → ℕ → Bool
unfolding contains_status_code
should_failover_response policy status =
    let f = policy.failover in
    if any_status f.response_status_codes
    then contains_status_code f.response_status_codes status
    else if status == 401
    then bool_or_default f.unauthorized true
    else if status == 402
    then bool_or_default f.payment_required true
    else if status == 403
    then bool_or_default f.forbidden true
    else if status == 429
    then bool_or_default f.rate_limit true
    else if is_server_error status
    then bool_or_default f.server_error true
    else false

unfoldable pub apply_no_default_backoff : ErrorPolicy → CooldownRule → CooldownRule
apply_no_default_backoff policy rule =
    if policy.cooldowns.no_default_backoff then record rule { enabled = some false } else rule

unfoldable pub cooldown_decision : ℕ → String → CooldownRule → Bool → Duration → Bool → KeyDecision
unfolding max_duration
cooldown_decision status reason rule failover retry_after use_max =
    let longer = if use_max then max_duration retry_after rule.duration else retry_after in
    let duration = if ltb_ℤ (pos 0) retry_after then longer else rule.duration in
    if bool_or_default rule.enabled true
    then record {
      action = cooldown;
      status_code = status;
      cooldown_time = duration;
      reason = reason;
      failover = failover;
    }
    else record {
      action = observe;
      status_code = status;
      cooldown_time = pos 0;
      reason = reason;
      failover = failover;
    }
