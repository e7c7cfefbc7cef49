-- ===== src/Providers/ProviderError/Classes.antt =====
-- How error classes and retries go together.
use qwen_claw.Base.{ℕ, ◌≡◌, ◌⊎◌, leb, arith}
use qwen_claw.Base.Text.{Text}
use qwen_claw.Providers.ProviderError.{is_retryable, classify_http_error}

-- The statuses that decide the class by themselves.
abbrev pub Decisive : ℕ → Type 0
Decisive s =
    ((s ≡ 401) ⊎ (s ≡ 402) ⊎ (s ≡ 403) ⊎ (s ≡ 404))
    ⊎ ((s ≡ 408) ⊎ (s ≡ 429) ⊎ (s ≡ 500) ⊎ (s ≡ 502) ⊎ (s ≡ 503) ⊎ (s ≡ 504))

-- For the statuses 401 to 404, 408, 429, 500 and 502 to 504, whatever the body says, the request is
-- worth a retry exactly from 408 on.
pub classify-retryable :
    (status : ℕ) (body : Text)
    → Decisive status
    → is_retryable (classify_http_error status body) ≡ leb 408 status
unfolding classify_http_error is_retryable
classify-retryable status body h = ground arith
