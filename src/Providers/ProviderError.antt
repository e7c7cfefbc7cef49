-- ===== src/Providers/ProviderError.antt =====
-- providers/provider_error: the classes of provider errors.
pub mod Classes
use qwen_claw.Base.{
  ℕ, Bool, true, false, ◌||◌, List, [], ◌∷◌, map, Option, none, some, ◌==◌, any_of, if◌then◌else◌,
}
use qwen_claw.Base.Text.{Text, codes, find_text, to_lower}

pub data ProviderErrorKind : Type 0 where
  rate_limit auth_error billing_error transient model_not_found timeout context_overflow unknown :
      ProviderErrorKind

pub is_retryable : ProviderErrorKind → Bool
is_retryable rate_limit = true
is_retryable transient = true
is_retryable timeout = true
is_retryable unknown = true
is_retryable auth_error = false
is_retryable billing_error = false
is_retryable model_not_found = false
is_retryable context_overflow = false

pub kind_to_string : ProviderErrorKind → Text
kind_to_string rate_limit = codes "rate_limit"
kind_to_string auth_error = codes "auth_error"
kind_to_string billing_error = codes "billing_error"
kind_to_string transient = codes "transient"
kind_to_string model_not_found = codes "model_not_found"
kind_to_string timeout = codes "timeout"
kind_to_string context_overflow = codes "context_overflow"
kind_to_string unknown = codes "unknown"

-- `s.find(needle) != npos`
pub holds_text : Text → Text → Bool
holds_text s needle = elim (find_text needle s) [ none ↦ false | some i ↦ true ]

-- The part of `ClassifyHttpError` that reads the body.
pub classify_body : Text → ProviderErrorKind
unfolding holds_text
classify_body body =
    let lower = map to_lower body in
    if any_of (holds_text lower)
      (codes "insufficient_credits" ∷ codes "insufficient_quota" ∷ codes "billing" ∷ [])
    then billing_error
    else if any_of (holds_text lower) (
        codes "context_length"
        ∷ codes "context length"
        ∷ codes "context window"
        ∷ codes "context_window"
        ∷ codes "token limit"
        ∷ [])
    then context_overflow
    else if any_of (holds_text lower) (codes "rate limit" ∷ codes "too many requests" ∷ [])
    then rate_limit
    else unknown

pub classify_http_error : ℕ → Text → ProviderErrorKind
unfolding classify_body
classify_http_error http_status body =
    if http_status == 429
    then rate_limit
    else if http_status == 401 || http_status == 403
    then auth_error
    else if http_status == 402
    then billing_error
    else if http_status == 404
    then model_not_found
    else if http_status == 408
    then timeout
    else if http_status == 500 || http_status == 502 || http_status == 503 || http_status == 504
    then transient
    else classify_body body
