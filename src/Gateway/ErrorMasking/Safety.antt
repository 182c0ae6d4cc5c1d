-- ===== src/Gateway/ErrorMasking/Safety.antt =====
-- internal/gateway/error_masking.go: what a policy that passes its validation can do.
use Prim.Native.String.{String}
use jc_proxy.Prelude.{
  ℕ, ◌≤◌, ◌≡◌, ◌⊎◌, refl, sym, Bool-cases, not, ◌||◌, ◌&&◌, inl, inr, arith, List, [], ◌∷◌, Option,
  none, some, ltb, some_inj,
}
use jc_proxy.Prelude.Int.{◌≤ℤ◌}
use jc_proxy.Balancer.Settle.{AttemptAction, cooldown, disable_key}
use jc_proxy.Gateway.ErrorPolicy.{KeyDecision, any_status, has_non_empty_pattern}
use jc_proxy.Gateway.ErrorMasking.{
  MaskingRule, MaskingPolicy, Texts, error_masking_enabled, mask_matches, match_error_mask_rule,
  match_upstream_error_mask, match_gateway_error_mask, build_masked_response,
  extend_decision_cooldown,
}
use jc_proxy.Gateway.ErrorMasking.Validation.{
  MaskingError, first_error, validate_status_codes, validate_masking_rule, validate_rules,
  validate_error_masking_rules,
}

first_error-none : (o p : Option MaskingError) → first_error o p ≡ none → (o ≡ none) × (p ≡ none)
first_error-none none p h = (refl, h)
first_error-none (some e) p h = absurd (ground arith)

-- An error status.
abbrev pub IsErrorStatus : ℕ → Type 0
IsErrorStatus n = (400 ≤ n) × (n ≤ 599)

module _ (texts : Texts) where
  validate_masking_rule-status :
      (rule : MaskingRule)
      → validate_masking_rule texts rule ≡ none
      → IsErrorStatus rule.status_code
  unfolding validate_masking_rule
  validate_masking_rule-status rule h =
      elim (Bool-cases
        (not (any_status rule.status_codes) && not (has_non_empty_pattern rule.keywords))) [
          | inl e ↦ absurd (ground arith)
          | inr e ↦
              let (codes, rest) =
                first_error-none (validate_status_codes rule.status_codes) _ (rw e at h) in
              elim (Bool-cases (ltb rule.status_code 400 || ltb 599 rule.status_code)) [
                | inl g ↦ absurd (ground arith)
                | inr g ↦ ground arith
              ]
        ]

  match-status :
      (status : ℕ) (body : String) (rules : List MaskingRule) (rule : MaskingRule)
      → validate_rules texts rules ≡ none
      → match_error_mask_rule texts status body rules ≡ some rule
      → IsErrorStatus rule.status_code
  unfolding match_error_mask_rule validate_rules
  match-status status body [] rule v h = absurd (ground arith)
  match-status status body (r ∷ rs) rule v h =
      let (one, rest) =
        first_error-none (validate_masking_rule texts r) (validate_rules texts rs) v in
      elim (Bool-cases (mask_matches texts status body r)) [
        | inl e ↦
            let same : r ≡ rule = some_inj (rw e at h) in
            let fits = validate_masking_rule-status r one in rw (sym same) fits
        | inr e ↦ match-status status body rs rule rest (rw e at h)
      ]

  -- With a policy that passes its validation, a masked response has an error status between 400 and
  -- 599, be the error the upstream's or the gateway's own: masking never makes an error a success.
  pub build_masked_response-IsErrorStatus :
      (policy : MaskingPolicy) (status : ℕ) (text retry_after : String) (rule : MaskingRule)
      → validate_error_masking_rules texts policy ≡ none
      → (match_upstream_error_mask texts policy status text ≡ some rule)
        ⊎ (match_gateway_error_mask texts policy status text ≡ some rule)
      → IsErrorStatus (build_masked_response texts rule retry_after).status_code
  unfolding validate_error_masking_rules match_upstream_error_mask match_gateway_error_mask
      build_masked_response
  build_masked_response-IsErrorStatus policy status text retry_after rule v h =
      elim (Bool-cases (error_masking_enabled policy)) [
        | inl e ↦ elim h [
          | inl up ↦ elim (Bool-cases (ltb status 400)) [
            | inl low ↦ absurd (ground arith)
            | inr high ↦ match-status status text policy.rules rule (rw e at v) (rw (e, high) at up)
          ]
          | inr own ↦ match-status status text policy.rules rule (rw e at v) (rw e at own)
        ]
        | inr e ↦ absurd (elim h [ inl up ↦ ground arith | inr own ↦ ground arith ])
      ]

-- How severe a decision is for the key: an action that lets it be, a cooldown, a disabling.
abbrev pub severity : AttemptAction → ℕ
severity disable_key = 2
severity cooldown = 1
severity _ = 0

-- Masking only ever extends what is decided of the key: a disabling stays as it is, no decision
-- becomes milder, no cooldown shorter, and status, reason and failover stay.
pub extend_decision_cooldown-extends :
    (d : KeyDecision) (rule : MaskingRule)
    → (severity d.action ≤ severity (extend_decision_cooldown d rule).action)
      × (d.action ≡ disable_key → extend_decision_cooldown d rule ≡ d)
      × (d.action ≡ cooldown → d.cooldown_time ≤ℤ (extend_decision_cooldown d rule).cooldown_time)
      × ((extend_decision_cooldown d rule).status_code ≡ d.status_code)
      × ((extend_decision_cooldown d rule).reason ≡ d.reason)
      × ((extend_decision_cooldown d rule).failover ≡ d.failover)
unfolding extend_decision_cooldown
extend_decision_cooldown-extends d rule = ground arith
