-- ===== src/Gateway/ErrorMasking/Validation.antt =====
-- internal/config/config.go: validateErrorMaskingRules. An error's text, with the number of the rule
-- and the name of the field, is its constructor.
use Prim.Native.String.{String}
use text.Mathlib.Text.{◌==◌ as str_eq}
use jc_proxy.Prelude.{ℕ, not, ◌&&◌, ◌||◌, List, [], ◌∷◌, Option, none, some, ltb, if◌then◌else◌}
use jc_proxy.Prelude.Int.{pos, ltb_ℤ, Duration, second}
use jc_proxy.Prelude.Text.{trim_space, is_empty}
use jc_proxy.Gateway.ErrorPolicy.{has_non_empty_pattern, any_status}
use jc_proxy.Gateway.ErrorMasking.{MaskingRule, MaskingPolicy, Texts, error_masking_enabled}

pub data MaskingError : Type 0 where
  no_condition : MaskingError
  invalid_status_code : ℕ → MaskingError
  not_an_error_status negative_cooldown invalid_retry_after short_retry_after : MaskingError

unfoldable pub validate_status_codes : List ℕ → Option MaskingError
validate_status_codes [] = none
validate_status_codes (code ∷ codes) =
    let rest = validate_status_codes codes in
    if ltb code 100 || ltb 599 code then some (invalid_status_code code) else rest

abbrev pub first_error : Option MaskingError → Option MaskingError → Option MaskingError
first_error none next = next
first_error (some e) next = some e

check_duration : Option Duration → Option MaskingError
check_duration none = some invalid_retry_after
check_duration (some d) = if ltb_ℤ d (pos second) then some short_retry_after else none

module _ (texts : Texts) where
  validate_masking_retry_after : String → Option MaskingError
  unfolding check_duration
  validate_masking_retry_after raw =
      let mode = texts.to_lower (trim_space raw) in
      if is_empty mode || str_eq mode "preserve" || str_eq mode "ignore"
      then none
      else check_duration (texts.parse_duration (trim_space raw))

  unfoldable pub validate_masking_rule : MaskingRule → Option MaskingError
  unfolding validate_status_codes validate_masking_retry_after has_non_empty_pattern
  validate_masking_rule rule =
      if not (any_status rule.status_codes) && not (has_non_empty_pattern rule.keywords)
      then some no_condition
      else first_error (validate_status_codes rule.status_codes) (
          if ltb rule.status_code 400 || ltb 599 rule.status_code
          then some not_an_error_status
          else if ltb_ℤ rule.cooldown_time (pos 0)
          then some negative_cooldown
          else validate_masking_retry_after rule.retry_after)

  unfoldable pub validate_rules : List MaskingRule → Option MaskingError
  unfolding validate_masking_rule
  validate_rules [] = none
  validate_rules (rule ∷ rules) = first_error (validate_masking_rule rule) (validate_rules rules)

  unfoldable pub validate_error_masking_rules : MaskingPolicy → Option MaskingError
  unfolding validate_rules
  validate_error_masking_rules m = if error_masking_enabled m then validate_rules m.rules else none
