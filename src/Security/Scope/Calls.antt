-- ===== src/Security/Scope/Calls.antt =====
-- Whole tool calls against the scope.
use qwen_claw.Base.{
  ◌≡◌, refl, Bool, false, not, ◌&&◌, ◌||◌, List, [], ◌∷◌, ◌++◌, Option, arith, any_of,
}
use qwen_claw.Base.Text.{Text, is_empty}
use qwen_claw.Security.Scope.{
  ScopeValidator, Param, lower, matches_pattern, is_target_in_scope, is_enabled, extract_targets,
  scope_error, check_targets, validate_tool_call,
}

abbrev pub is_outside : ScopeValidator → Text → Bool
is_outside v target = not (is_target_in_scope v target)

scope_error-nonempty :
    (v : ScopeValidator) (tool target : Text) → is_empty (scope_error v tool target) ≡ false
unfolding scope_error
scope_error-nonempty v tool target = refl

check_targets-outside :
    (v : ScopeValidator) (tool : Text) (targets : List Text)
    → is_empty (check_targets v tool targets) ≡ not (any_of (is_outside v) targets)
unfolding check_targets
check_targets-outside v tool [] = refl
check_targets-outside v tool (t ∷ ts) =
    ground (arith, scope_error-nonempty v tool t, check_targets-outside v tool ts)

-- A call passes exactly when no scope is configured or each of its targets is in scope.
pub validate_tool_call-outside :
    (v : ScopeValidator) (tool : Text) (params : Option (Text → Param))
    → is_empty (validate_tool_call v tool params)
      ≡ (not (is_enabled v) || not (any_of (is_outside v) (extract_targets params)))
unfolding validate_tool_call
validate_tool_call-outside v tool params =
    ground (arith, check_targets-outside v tool (extract_targets params))

any_of-append :
    (p : Text → Bool) (xs ys : List Text) → any_of p (xs ++ ys) ≡ (any_of p xs || any_of p ys)
any_of-append p [] ys = refl
any_of-append p (x ∷ xs) ys = ground (arith, any_of-append p xs ys)

-- The scope with more restrictions.
abbrev pub restricted_by : List Text → ScopeValidator → ScopeValidator
restricted_by more v = record v { restricted_targets = more ++ v.restricted_targets }

is_outside-restricted :
    (more : List Text) (v : ScopeValidator) (t : Text)
    → is_outside (restricted_by more v) t
      ≡ (any_of (matches_pattern (lower t)) more || is_outside v t)
unfolding is_target_in_scope
is_outside-restricted more v t =
    ground (arith, any_of-append (matches_pattern (lower t)) more v.restricted_targets)

any_of-or :
    (p q r : Text → Bool) (e : (t : Text) → p t ≡ (q t || r t)) (ts : List Text)
    → any_of p ts ≡ (any_of q ts || any_of r ts)
any_of-or p q r e [] = refl
any_of-or p q r e (t ∷ ts) = ground (arith, e t, any_of-or p q r e ts)

-- A further restriction refuses exactly the calls that were refused before and, where a scope is
-- configured, those with a target that the restriction names; no accepted pattern outweighs it.
pub validate_tool_call-restricted :
    (more : List Text) (v : ScopeValidator) (tool : Text) (params : Option (Text → Param))
    → is_empty (validate_tool_call (restricted_by more v) tool params) ≡ (
        is_empty (validate_tool_call v tool params)
        && (not (is_enabled v)
            || not
                (any_of (λ t. any_of (matches_pattern (lower t)) more) (extract_targets params))))
validate_tool_call-restricted more v tool params = ground (
  arith,
  validate_tool_call-outside (restricted_by more v) tool params,
  validate_tool_call-outside v tool params,
  any_of-or (is_outside (restricted_by more v)) (λ t. any_of (matches_pattern (lower t)) more)
      (is_outside v) (is_outside-restricted more v) (extract_targets params),
)
