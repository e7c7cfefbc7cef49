-- ===== src/Security/Scope/Tests.antt =====
-- The theorems on scopes at concrete targets.
use qwen_claw.Base.{
  ◌≡◌, refl, true, not, ◌&&◌, ◌||◌, [], ◌∷◌, Option, some, any_of, arith, ◌↔◌, ◌==◌, ◌/◌,
  if◌then◌else◌,
}
use qwen_claw.Base.Text.{Text, codes, text_eq, is_empty}
use qwen_claw.Base.Decimal.{to_string_ℕ}
use qwen_claw.Security.Scope.{
  ScopeValidator, Param, missing, text, lower, is_enabled, matches_pattern, extract_targets,
  value_targets, validate_tool_call,
}
use qwen_claw.Security.Scope.Address.{value_of}
use qwen_claw.Security.Scope.Ranges.{matches_pattern-range}
use qwen_claw.Security.Scope.Wildcards.{IsWithin, matches_pattern-IsWithin}
use qwen_claw.Security.Scope.Calls.{
  is_outside, restricted_by, validate_tool_call-outside, validate_tool_call-restricted,
}
use qwen_claw.Security.Scope.Bypass.{value_targets-at}

abbrev lab : ScopeValidator
lab = record {
  accepted_targets = codes "*.example.com" ∷ codes "10.0.0.0/24" ∷ [];
  restricted_targets = codes "vpn.example.com" ∷ [];
}

abbrev scan : Option (Text → Param)
scan =
    some (λ key.
      if text_eq key (codes "url") then text (codes "http://www.example.com/x") else missing)

matches_pattern-range_example :
    matches_pattern (codes "10.0.0.7") (codes "10.0.0.200/24")
    ≡ (value_of 10 0 0 7 / 256 == value_of 10 0 0 200 / 256)
unfolding to_string_ℕ
matches_pattern-range_example =
    matches_pattern-range 10 0 0 7 10 0 0 200 24 (omega arith) (omega arith) (omega arith)
      (omega arith) (omega arith) (omega arith) (omega arith) (omega arith) (omega arith)

matches_pattern-IsWithin_example :
    (matches_pattern (codes "www.example.com") (codes "*.Example.com") ≡ true)
    ↔ IsWithin (codes "www.example.com") (lower (codes "Example.com"))
matches_pattern-IsWithin_example =
    matches_pattern-IsWithin (codes "www.example.com") (codes "Example.com") refl

validate_tool_call-outside_example :
    is_empty (validate_tool_call lab (codes "nmap") scan)
    ≡ (not (is_enabled lab) || not (any_of (is_outside lab) (extract_targets scan)))
validate_tool_call-outside_example = validate_tool_call-outside lab (codes "nmap") scan

validate_tool_call-restricted_example :
    is_empty
      (validate_tool_call (restricted_by (codes "www.example.com" ∷ []) lab) (codes "nmap") scan)
    ≡ (is_empty (validate_tool_call lab (codes "nmap") scan)
        && (not (is_enabled lab)
            || not (
                any_of
                  (λ t. any_of (matches_pattern (lower t)) (codes "www.example.com" ∷ []))
                  (extract_targets scan))))
validate_tool_call-restricted_example =
    validate_tool_call-restricted (codes "www.example.com" ∷ []) lab (codes "nmap") scan

value_targets-at_example :
    value_targets (codes "http://evil.net/@www.example.com") ≡ codes "www.example.com" ∷ []
value_targets-at_example = value_targets-at (codes "evil.net") (codes "www.example.com") refl refl
