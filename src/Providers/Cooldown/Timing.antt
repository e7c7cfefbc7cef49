-- ===== src/Providers/Cooldown/Timing.antt =====
-- When a key is in cooldown, and when it may be probed.
use qwen_claw.Base.{
  ℕ, ◌+◌, ◌*◌, ◌<◌, ◌≡◌, refl, true, false, some, Option-cases, Bool-cases, inl, inr, arith, ltb,
  if◌then◌else◌,
}
use qwen_claw.Base.Int.{ℤ}
use qwen_claw.Base.Text.{Text, text_eq, text_eq_refl}
use qwen_claw.Base.Dict.{find, insert, find-insert, find-erase}
use qwen_claw.Providers.ProviderError.{ProviderErrorKind}
use qwen_claw.Providers.Cooldown.{
  Tracker, CooldownState, second, probe_interval, state_of, next_failures, cooldown_seconds,
  is_in_cooldown, record_failure, record_success, failure_count, try_probe,
}

-- After a failure of `key` at `now`, it is in cooldown exactly until the server's `Retry-After`, if
-- that is positive, or else the computed backoff has passed; any other key is as before.
pub record_failure-cooldown :
    (key j : Text) (kind : ProviderErrorKind) (retry_after : ℤ) (now later : ℕ) (states : Tracker)
    → is_in_cooldown j later (record_failure key kind retry_after now states) ≡ (
        if text_eq key j
        then ltb later (
            now
            + cooldown_seconds kind retry_after (next_failures now (state_of key states)) * second)
        else is_in_cooldown j later states)
unfolding is_in_cooldown record_failure
record_failure-cooldown key j kind retry_after now later states =
    elim (Bool-cases (text_eq key j)) [
      | inl same ↦ rw (find-insert, is_in_cooldown) (rw same refl)
      | inr other ↦ rw (find-insert, is_in_cooldown) (rw other refl)
    ]

-- A success of `key` ends its cooldown and clears its count; any other key is as before.
pub record_success-clears :
    (key j : Text) (now : ℕ) (states : Tracker)
    → (is_in_cooldown j now (record_success key states)
        ≡ (if text_eq key j then false else is_in_cooldown j now states))
      × (failure_count j (record_success key states)
          ≡ (if text_eq key j then 0 else failure_count j states))
unfolding is_in_cooldown failure_count record_success
record_success-clears key j now states = elim (Bool-cases (text_eq key j)) [
  | inl same ↦ (
    rw (find-erase, is_in_cooldown) (rw same refl),
    rw (find-erase, failure_count) (rw same refl),
  )
  | inr other ↦ (
    rw (find-erase, is_in_cooldown) (rw other refl),
    rw (find-erase, failure_count) (rw other refl),
  )
]

probe_passed :
    (key : Text) (now : ℕ) (states : Tracker)
    → (try_probe key now states).1 ≡ true
    → (s : CooldownState) × (find key states ≡ some s)
      × (now < s.cooldown_until)
      × (try_probe key now states ≡ (insert key (record s { last_probe_at = now }) states, true))
unfolding try_probe
probe_passed key now states passed = elim (Option-cases (find key states)) [
  | inl missing ↦ ground arith
  | inr (s, found) ↦ (s, found, ground arith, ground arith)
]

probed_again :
    (key : Text) (now later : ℕ) (s : CooldownState) (states : Tracker)
    → later < now + probe_interval
    → (try_probe key later (insert key (record s { last_probe_at = now }) states)).1 ≡ false
unfolding try_probe
probed_again key now later s states early =
    let found = find-insert key key (record s { last_probe_at = now }) states in
    ground (arith, found, text_eq_refl key)

-- Probes are throttled: once a probe of a key was let through, no other one is until 30 seconds later.
pub try_probe-throttled :
    (key : Text) (now later : ℕ) (states : Tracker)
    → (try_probe key now states).1 ≡ true
    → later < now + probe_interval
    → (try_probe key later (try_probe key now states).0).1 ≡ false
try_probe-throttled key now later states passed early =
    let (s, found, cooling, e) = probe_passed key now states passed in
    rw e (probed_again key now later s states early)

-- A probe is let through only in the middle of a cooldown, whose end it leaves as it was.
pub try_probe-cooldown :
    (key : Text) (now later : ℕ) (states : Tracker)
    → (try_probe key now states).1 ≡ true
    → (is_in_cooldown key now states ≡ true)
      × (is_in_cooldown key later (try_probe key now states).0 ≡ is_in_cooldown key later states)
unfolding is_in_cooldown
try_probe-cooldown key now later states passed =
    let (s, found, cooling, e) = probe_passed key now states passed in
    let put = find-insert key key (record s { last_probe_at = now }) states in
    (ground arith, rw e (ground (arith, put, text_eq_refl key)))
