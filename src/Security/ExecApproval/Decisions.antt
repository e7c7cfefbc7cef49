-- ===== src/Security/ExecApproval/Decisions.antt =====
-- What a request for approval is answered.
use qwen_claw.Base.{
  ℕ, ◌≡◌, ◌∙◌, refl, sym, ap, inl, inr, Bool, true, false, List, [], ◌∷◌, ◌++◌, none, some,
  Option-cases, if◌then◌else◌, Bool-cases, arith, any_of, append_assoc, append-nil,
}
use qwen_claw.Base.Text.{Text}
use qwen_claw.Security.Glob.{ExecAllowlist, matches, add_pattern, glob_match, new_allowlist}
use qwen_claw.Security.Glob.Reference.{glob_holds}
use qwen_claw.Security.Glob.Exact.{glob_match_sound}
use qwen_claw.Security.ExecApproval.{
  on_miss, always, approved, denied, pending, ApprovalRequest, new_request, ExecApprovalConfig,
  ExecApprovalManager, add_patterns, configure, decide, is_approved_at_once, request_approval,
}

request_approval-answer :
    (id : Text) (now later : ℕ) (command cwd agent_id session_key : Text) (m : ExecApprovalManager)
    → (request_approval id now later command cwd agent_id session_key m).0 ≡ (
        if is_approved_at_once m command
        then some approved
        else decide m (new_request id now command cwd agent_id session_key m))
unfolding request_approval decide
request_approval-answer id now later command cwd agent_id session_key m =
    elim (Bool-cases (is_approved_at_once m command)) [
      | inl at_once ↦ rw at_once refl
      | inr asks ↦
          let r = new_request id now command cwd agent_id session_key m in
          elim (Option-cases (decide m r)) [
            | inl threw ↦ ground (arith, asks, threw)
            | inr (d, decided) ↦ ground (arith, asks, decided)
          ]
    ]

decide-settled :
    (m : ExecApprovalManager) (r : ApprovalRequest)
    → decide m r ≡ some pending
    → m.config.timeout_fallback ≡ pending
unfolding decide
decide-settled m r h = ground (arith, h)

-- No call returns a pending answer, unless the fallback itself is set to one.
pub request_approval-answered :
    (id : Text) (now later : ℕ) (command cwd agent_id session_key : Text) (m : ExecApprovalManager)
    → (request_approval id now later command cwd agent_id session_key m).0 ≡ some pending
    → m.config.timeout_fallback ≡ pending
request_approval-answered id now later command cwd agent_id session_key m h =
    let r = new_request id now command cwd agent_id session_key m in
    ground (
      arith,
      h,
      request_approval-answer id now later command cwd agent_id session_key m,
      decide-settled m r,
    )

add_patterns-patterns :
    (ps : List Text) (l : ExecAllowlist) → (add_patterns ps l).patterns ≡ l.patterns ++ ps
unfolding add_patterns add_pattern
add_patterns-patterns [] l = sym (append-nil (l.patterns))
add_patterns-patterns (p ∷ ps) l =
    add_patterns-patterns ps (add_pattern p l) ∙ append_assoc (l.patterns) (p ∷ []) ps

configure-patterns :
    (config : ExecApprovalConfig) (m : ExecApprovalManager)
    → (configure config m).allowlist.patterns ≡ config.allowlist
unfolding configure
configure-patterns config m = add_patterns-patterns (config.allowlist) new_allowlist

any_of_sound :
    (p q : Text → Bool) (xs : List Text)
    → ((x : Text) → p x ≡ true → q x ≡ true)
    → any_of p xs ≡ true
    → any_of q xs ≡ true
any_of_sound p q [] imply h = h
any_of_sound p q (x ∷ xs) imply h = ground (arith, h, imply x, any_of_sound p q xs imply)

-- What the configuration leaves of the first returns.
configure-asks :
    (config : ExecApprovalConfig) (m : ExecApprovalManager) (command : Text)
    → config.ask ≡ always
    → is_approved_at_once (configure config m) command ≡ false
unfolding is_approved_at_once configure
configure-asks config m command ask = ground (arith, ask)

configure-on_miss :
    (config : ExecApprovalConfig) (m : ExecApprovalManager) (command : Text)
    → config.ask ≡ on_miss
    → is_approved_at_once (configure config m) command
      ≡ any_of (λ pattern. glob_match pattern command) (config.allowlist)
unfolding is_approved_at_once configure matches
configure-on_miss config m command ask =
    ground (arith, ask)
    ∙ ap (λ ps. any_of (λ pattern. glob_match pattern command) ps) (configure-patterns config m)

configure-decide :
    (config : ExecApprovalConfig) (m : ExecApprovalManager) (r : ApprovalRequest)
    → m.approval_handler ≡ none
    → decide (configure config m) r ≡ some config.timeout_fallback
unfolding configure decide
configure-decide config m r h = ground (arith, h)

-- With the mode `on-miss`, the fallback `denied` and no handler, a command that is approved has the
-- form of one of the configured patterns.
pub request_approval-listed :
    (config : ExecApprovalConfig) (id : Text) (now later : ℕ)
    (command cwd agent_id session_key : Text) (m : ExecApprovalManager)
    → config.ask ≡ on_miss
    → config.timeout_fallback ≡ denied
    → m.approval_handler ≡ none
    → (request_approval id now later command cwd agent_id session_key (configure config m)).0
      ≡ some approved
    → any_of (λ pattern. glob_holds pattern command) (config.allowlist) ≡ true
request_approval-listed config id now later command cwd agent_id session_key m ask fallback handler
      h =
    let r = new_request id now command cwd agent_id session_key (configure config m) in
    any_of_sound (λ p. glob_match p command) (λ p. glob_holds p command) (config.allowlist)
      (λ p. glob_match_sound p command)
      (sym (configure-on_miss config m command ask)
        ∙ ground (
          arith,
          h,
          request_approval-answer id now later command cwd agent_id session_key
              (configure config m),
          configure-decide config m r handler,
          fallback,
        ))

-- With the mode `always` the configured patterns play no part: another list gives the same answer.
pub request_approval-always :
    (config : ExecApprovalConfig) (allowlist : List Text) (id : Text) (now later : ℕ)
    (command cwd agent_id session_key : Text) (m : ExecApprovalManager)
    → config.ask ≡ always
    → (request_approval id now later command cwd agent_id session_key (configure config m)).0
      ≡ (request_approval id now later command cwd agent_id session_key
          (configure (record config { allowlist = allowlist }) m)).0
unfolding configure decide
request_approval-always config allowlist id now later command cwd agent_id session_key m ask =
    let other : ExecApprovalConfig = record config { allowlist = allowlist } in
    request_approval-answer id now later command cwd agent_id session_key (configure config m)
    ∙ ground (
      arith,
      configure-asks config m command ask,
      configure-asks other m command ask,
      request_approval-answer id now later command cwd agent_id session_key (configure other m),
    )
