-- ===== src/Security/ExecApproval/Pending.antt =====
-- What becomes of the requests that wait.
use qwen_claw.Base.{
  ℕ, ◌<◌, ◌≡◌, ◌∙◌, refl, inl, inr, leb, Bool, true, false, ◌&&◌, Option, List, [], ◌∷◌, none, some,
  Option-cases, Bool-cases, arith, any_of, if◌then◌else◌,
}
use qwen_claw.Base.Text.{Text, codes, text_eq, text_eq_iff, text_eq_refl}
use qwen_claw.Base.Dict.{Dict, find, insert, find-insert, find-erase}
use qwen_claw.Security.ExecApproval.{
  ApprovalDecision, ApprovalRequest, ExecApprovalManager, is_approved_at_once, resolve, decide,
  new_request, request_approval, expired_ids, expire_all, prune_expired,
}

resolve-pending :
    (id j : Text) (d : ApprovalDecision) (by_whom : Text) (now : ℕ) (m : ExecApprovalManager)
    → find j ((resolve id d by_whom now m).1.pending)
      ≡ (if text_eq id j then none else find j (m.pending))
unfolding resolve
resolve-pending id j d by_whom now m = elim (Option-cases (find id (m.pending))) [
  | inl missing ↦ ground (arith, missing, text_eq_iff id j)
  | inr (request, found) ↦ ground (arith, found, find-erase j id (m.pending))
]

resolve-missing :
    (id : Text) (d : ApprovalDecision) (who : Text) (now : ℕ) (m : ExecApprovalManager)
    → find id (m.pending) ≡ none
    → (resolve id d who now m).0 ≡ false
unfolding resolve
resolve-missing id d who now m missing = ground (arith, missing)

-- An id is resolved at most once: after a call of `Resolve`, the next one for the id is refused.
pub resolve-once :
    (id : Text) (d d' : ApprovalDecision) (who who' : Text) (now later : ℕ)
    (m : ExecApprovalManager)
    → (resolve id d' who' later ((resolve id d who now m).1)).0 ≡ false
resolve-once id d d' who who' now later m =
    resolve-missing id d' who' later ((resolve id d who now m).1)
      (resolve-pending id id d who now m ∙ ground (arith, text_eq_refl id))

insert-resolve :
    (id j : Text) (request : ApprovalRequest) (d : ApprovalDecision) (who : Text) (later : ℕ)
    (m : ExecApprovalManager)
    → find id (m.pending) ≡ none
    → find j
        ((resolve id d who later (record m { pending = insert id request (m.pending) })).1.pending)
      ≡ find j (m.pending)
insert-resolve id j request d who later m fresh =
    resolve-pending id j d who later (record m { pending = insert id request (m.pending) })
    ∙ ground (arith, find-insert j id request (m.pending), text_eq_iff id j, fresh)

-- Whether the handler threw.
abbrev pub threw : Option ApprovalDecision → Bool
threw none = true
threw (some d) = false

decide-pending :
    (id j : Text) (request : ApprovalRequest) (later : ℕ) (m : ExecApprovalManager)
    (decision : Option ApprovalDecision)
    → find id (m.pending) ≡ none
    → let asked = record m { pending = insert id request (m.pending) } in
      let out : Option ApprovalDecision × ExecApprovalManager = elim decision [
        | none ↦ (none, asked)
        | some d ↦ (some d, (resolve id d (codes "auto") later asked).1)
      ] in
      find j (out.1.pending)
      ≡ (if threw out.0 && text_eq id j then some request else find j (m.pending))
decide-pending id j request later m none fresh = find-insert j id request (m.pending)
decide-pending id j request later m (some d) fresh =
    insert-resolve id j request d (codes "auto") later m fresh

-- With a fresh id a request is settled when its call returns: what waits after the call is what waited
-- before it. Where the handler throws, the request itself waits as well.
pub request_approval-settled :
    (id : Text) (now later : ℕ) (command cwd agent_id session_key : Text) (m : ExecApprovalManager)
    (j : Text)
    → find id (m.pending) ≡ none
    → let out = request_approval id now later command cwd agent_id session_key m in
      find j (out.1.pending) ≡ (
        if threw out.0 && text_eq id j
        then some (new_request id now command cwd agent_id session_key m)
        else find j (m.pending))
unfolding request_approval
request_approval-settled id now later command cwd agent_id session_key m j fresh =
    elim (Bool-cases (is_approved_at_once m command)) [
      | inl at_once ↦ rw at_once refl
      | inr asks ↦
          let r = new_request id now command cwd agent_id session_key m in
          rw asks (
            decide-pending id j r later m
              (decide (record m { pending = insert id r (m.pending) }) r) fresh)
    ]

expire_all-pending :
    (now : ℕ) (ids : List Text) (m : ExecApprovalManager) (j : Text)
    → find j ((expire_all now ids m).pending)
      ≡ (if any_of (λ id. text_eq id j) ids then none else find j (m.pending))
unfolding expire_all
expire_all-pending now [] m j = refl
expire_all-pending now (id ∷ ids) m j =
    expire_all-pending now ids _ j ∙ ground (arith, find-erase j id (m.pending))

-- An entry that is found and not collected has not expired.
expired_ids-rest :
    (now : ℕ) (requests : Dict ApprovalRequest) (j : Text) (r : ApprovalRequest)
    → any_of (λ id. text_eq id j) (expired_ids now requests) ≡ false
    → find j requests ≡ some r
    → leb (r.expires_at) now ≡ false
unfolding expired_ids find
expired_ids-rest now [] j r h found = ground (arith, found)
expired_ids-rest now ((id, request) ∷ requests) j r h found =
    ground (arith, h, found, expired_ids-rest now requests j r)

-- After `PruneExpired` every request that still waits was waiting before and has not expired.
pub prune_expired-pending :
    (now : ℕ) (m : ExecApprovalManager) (j : Text) (r : ApprovalRequest)
    → find j ((prune_expired now m).pending) ≡ some r
    → (now < r.expires_at) × (find j (m.pending) ≡ some r)
unfolding prune_expired
prune_expired-pending now m j r h =
    elim (Bool-cases (any_of (λ id. text_eq id j) (expired_ids now (m.pending)))) [
      | inl old ↦
          absurd (ground (arith, h, old, expire_all-pending now (expired_ids now (m.pending)) m j))
      | inr fresh ↦
          let found : find j (m.pending) ≡ some r =
            ground (arith, h, fresh, expire_all-pending now (expired_ids now (m.pending)) m j) in
          (ground (arith, expired_ids-rest now (m.pending) j r fresh found), found)
    ]
