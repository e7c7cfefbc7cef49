-- ===== src/Core/Subagent/Reachable.antt =====
-- The manager over every interleaving of its critical sections: a call of Spawn is a check and, later,
-- a record; in between, other calls have the lock. What its runner calls and the end that follows the
-- reply are steps of their own.
use qwen_claw.Base.{
  ℕ, suc, ◌+◌, ◌-◌, ◌≤◌, ◌≡◌, refl, sym, ap, subst, false, List, [], ◌∷◌, ◌++◌, none, some, arith,
  length, length-append, Bool-cases, Option-cases, inl, inr, if◌then◌else◌,
}
use qwen_claw.Base.Int.{ℤ, pos, ltb_ℤ}
use qwen_claw.Base.Text.{Text, codes, text_eq, text_eq_iff, is_empty}
use qwen_claw.Base.Dict.{find}
use qwen_claw.Core.Subagent.{
  completed, failed, cancelled, SubagentRun, SubagentManager, SubagentConfig, SpawnParams,
  is_running, is_active, has_too_many, target_agent, check_spawn, record_run, configure,
  complete_run, fail_run, cancel_run, cleanup_completed, done_ids, Reply, answer, threw,
  AgentRunner, settle, launch, spawn, run_id_of, session_key_of,
}
use qwen_claw.Core.Subagent.Owned.{
  active_count, IsOwned, IsBounded, IsBounded-fewer, ended, ended-fewer, ended-IsOwned,
}
use qwen_claw.Core.Subagent.Recorded.{record_run-IsOwned, active_count-record_run, has_room}
use qwen_claw.Core.Subagent.Removed.{remove_all-kept, config-remove_all}

-- At most `limit` children.
abbrev pub Within : ℕ → SubagentConfig → Type 0
Within limit c = ltb_ℤ (pos limit) c.max_children ≡ false

-- What a manager comes to that no configuration gives more than `limit` children, with at most
-- `width` calls of Spawn between their check and their record at a time; the list has the parents of
-- those, in any order.
pub data Reachable (limit width : ℕ) : List Text → SubagentManager → Type 0 where
  start :
      (c : SubagentConfig)
      → Within limit c
      → Reachable limit width [] record { config = c; runs = []; parent_children = [] }
  configured :
      {waiting : List Text} {m : SubagentManager} (c : SubagentConfig)
      → Reachable limit width waiting m
      → Within limit c
      → Reachable limit width waiting (configure c m)
  checked :
      {waiting : List Text} {m : SubagentManager} (p : SpawnParams) (parent : Text) (depth : ℤ)
      → Reachable limit width waiting m
      → check_spawn p parent depth m ≡ none
      → suc (length waiting) ≤ width
      → Reachable limit width (parent ∷ waiting) m
  recorded :
      {m : SubagentManager} (before after : List Text) (id key : Text) (p : SpawnParams)
      (parent : Text)
      → Reachable limit width (before ++ parent ∷ after) m
      → find id m.runs ≡ none
      → Reachable limit width (before ++ after) (record_run id key p parent m)
  completed_run :
      {waiting : List Text} {m : SubagentManager} (id s : Text)
      → Reachable limit width waiting m
      → Reachable limit width waiting (complete_run id s m)
  failed_run :
      {waiting : List Text} {m : SubagentManager} (id e : Text)
      → Reachable limit width waiting m
      → Reachable limit width waiting (fail_run id e m)
  cancelled_run :
      {waiting : List Text} {m : SubagentManager} (id : Text)
      → Reachable limit width waiting m
      → Reachable limit width waiting (cancel_run id m).1
  cleaned :
      {waiting : List Text} {m : SubagentManager}
      → Reachable limit width waiting m
      → Reachable limit width waiting (cleanup_completed m).1

-- How many calls of a parent wait.
abbrev pub count : Text → List Text → ℕ
count q [] = 0
count q (parent ∷ waiting) = (if text_eq parent q then 1 else 0) + count q waiting

count-le : (q : Text) (waiting : List Text) → count q waiting ≤ length waiting
count-le q [] = omega arith
count-le q (parent ∷ waiting) = ground (arith, count-le q waiting)

count-middle :
    (q parent : Text) (before after : List Text)
    → count q (before ++ parent ∷ after)
      ≡ (if text_eq parent q then 1 else 0) + count q (before ++ after)
count-middle q parent [] after = refl
count-middle q parent (b ∷ before) after = omega (arith, count-middle q parent before after)

-- What a parent may have at work while its calls wait.
abbrev left_over : ℕ → List Text → Text → ℕ
left_over most waiting q = most - count q waiting

abbrev IsKept : ℕ → (Text → ℕ) → SubagentManager → Type 0
IsKept n bound m = Within (suc n) m.config × (IsOwned m × IsBounded bound m)

ended-IsKept :
    (n : ℕ) (bound : Text → ℕ) (id : Text) (r s : SubagentRun) (m : SubagentManager)
    → find id m.runs ≡ some s
    → r.parent_session_key ≡ s.parent_session_key
    → is_running r.state ≡ false
    → IsKept n bound m
    → IsKept n bound (ended id r m)
ended-IsKept n bound id r s m found parent over (config, (owned, bounded)) = (
  config,
  (
    ended-IsOwned id r s m found parent owned,
    IsBounded-fewer bound m (ended id r m) refl (ended-fewer id r m over) bounded,
  ),
)

complete_run-IsKept :
    (n : ℕ) (bound : Text → ℕ) (id s : Text) (m : SubagentManager)
    → IsKept n bound m
    → IsKept n bound (complete_run id s m)
unfolding complete_run
complete_run-IsKept n bound id s m kept = elim (Option-cases (find id m.runs)) [
  | inl missing ↦
      let e : complete_run id s m ≡ m = ground (arith, missing) in
      subst (IsKept n bound) (sym e) kept
  | inr (r, found) ↦
      let r' = record r { state = completed; result_summary = s } in
      let e : complete_run id s m ≡ ended id r' m = ground (arith, found) in
      subst (IsKept n bound) (sym e) (ended-IsKept n bound id r' r m found refl refl kept)
]

fail_run-IsKept :
    (n : ℕ) (bound : Text → ℕ) (id t : Text) (m : SubagentManager)
    → IsKept n bound m
    → IsKept n bound (fail_run id t m)
unfolding fail_run
fail_run-IsKept n bound id t m kept = elim (Option-cases (find id m.runs)) [
  | inl missing ↦
      let e : fail_run id t m ≡ m = ground (arith, missing) in subst (IsKept n bound) (sym e) kept
  | inr (r, found) ↦
      let r' = record r { state = failed; result_summary = codes "Error: " ++ t } in
      let e : fail_run id t m ≡ ended id r' m = ground (arith, found) in
      subst (IsKept n bound) (sym e) (ended-IsKept n bound id r' r m found refl refl kept)
]

cancel_run-IsKept :
    (n : ℕ) (bound : Text → ℕ) (id : Text) (m : SubagentManager)
    → IsKept n bound m
    → IsKept n bound (cancel_run id m).1
unfolding cancel_run
cancel_run-IsKept n bound id m kept = elim (Option-cases (find id m.runs)) [
  | inl missing ↦
      let e : (cancel_run id m).1 ≡ m = ground (arith, missing) in
      subst (IsKept n bound) (sym e) kept
  | inr (r, found) ↦ elim (Bool-cases (is_running r.state)) [
    | inr over ↦
        let e : (cancel_run id m).1 ≡ m = ground (arith, found, over) in
        subst (IsKept n bound) (sym e) kept
    | inl active ↦
        let r' = record r { state = cancelled } in
        let e : (cancel_run id m).1 ≡ ended id r' m = ground (arith, found, active) in
        subst (IsKept n bound) (sym e) (ended-IsKept n bound id r' r m found refl refl kept)
  ]
]

record_run-IsKept :
    (n most : ℕ) (before after : List Text) (id key : Text) (p : SpawnParams) (parent : Text)
    (m : SubagentManager)
    → length (before ++ parent ∷ after) ≤ most
    → find id m.runs ≡ none
    → IsKept n (left_over most (before ++ parent ∷ after)) m
    → IsKept n (left_over most (before ++ after)) (record_run id key p parent m)
unfolding record_run
record_run-IsKept n most before after id key p parent m few fresh (config, (owned, bounded)) = (
  config,
  (
    record_run-IsOwned id key p parent m fresh owned,
    λ q. omega (
      arith,
      active_count-record_run id key p parent q m fresh owned,
      count-middle q parent before after,
      count-le q (before ++ parent ∷ after),
      few,
      bounded q,
    ),
  ),
)

check_spawn-room :
    (p : SpawnParams) (parent : Text) (depth : ℤ) (m : SubagentManager)
    → check_spawn p parent depth m ≡ none
    → has_too_many m parent ≡ false
unfolding check_spawn
check_spawn-room p parent depth m h = ground (arith, h)

Reachable-width :
    {limit width : ℕ} {waiting : List Text} {m : SubagentManager}
    → Reachable limit width waiting m
    → length waiting ≤ width
Reachable-width (start c within) = omega arith
Reachable-width (configured c reach within) = Reachable-width reach
Reachable-width (checked p parent depth reach free few) = few
Reachable-width (recorded before after id key p parent reach fresh) = omega (
  arith,
  Reachable-width reach,
  length-append before (parent ∷ after),
  length-append before after,
)
Reachable-width (completed_run id s reach) = Reachable-width reach
Reachable-width (failed_run id e reach) = Reachable-width reach
Reachable-width (cancelled_run id reach) = Reachable-width reach
Reachable-width (cleaned reach) = Reachable-width reach

Reachable-IsKept :
    {n width : ℕ} {waiting : List Text} {m : SubagentManager}
    → Reachable (suc n) width waiting m
    → IsKept n (left_over (n + width) waiting) m
unfolding cleanup_completed configure find is_active
Reachable-IsKept (start c within) =
    (within, ((λ p id h. absurd (ground (arith, h))), λ p. omega arith))
Reachable-IsKept (configured c reach within) = (within, (Reachable-IsKept reach).1)
Reachable-IsKept {n} {width} (checked {waiting} {m} p parent depth reach free few) =
    let (config, (owned, bounded)) = Reachable-IsKept reach in
    let room = has_room parent m n config (check_spawn-room p parent depth m free) in
    (
      config,
      (
        owned,
        λ q. elim (Bool-cases (text_eq parent q)) [
          | inl here ↦ rw here (
              omega (
                arith,
                few,
                count-le q waiting,
                room,
                ap (λ c. active_count c m) ((text_eq_iff parent q).0 here),
              ))
          | inr there ↦ rw there (omega (arith, bounded q))
        ],
      ),
    )
Reachable-IsKept {n} {width} (recorded {m} before after id key p parent reach fresh) =
    record_run-IsKept n (n + width) before after id key p parent m
      (omega (arith, Reachable-width reach)) fresh (Reachable-IsKept reach)
Reachable-IsKept {n} {width} {waiting} (completed_run {m = m} id s reach) =
    complete_run-IsKept n (left_over (n + width) waiting) id s m (Reachable-IsKept reach)
Reachable-IsKept {n} {width} {waiting} (failed_run {m = m} id e reach) =
    fail_run-IsKept n (left_over (n + width) waiting) id e m (Reachable-IsKept reach)
Reachable-IsKept {n} {width} {waiting} (cancelled_run {m = m} id reach) =
    cancel_run-IsKept n (left_over (n + width) waiting) id m (Reachable-IsKept reach)
Reachable-IsKept {n} {width} {waiting} (cleaned {m = m} reach) =
    let (config, (owned, bounded)) = Reachable-IsKept reach in
    (
      subst (Within (suc n)) (sym (config-remove_all (done_ids m.runs) m)) config,
      remove_all-kept (done_ids m.runs) m (left_over (n + width) waiting) owned bounded,
    )

-- If no configuration allows more than `suc n` children, at most `width` calls of Spawn are between
-- their check and their record at a time, and run ids are fresh, then over every interleaving of the
-- manager's steps a parent's children at work and its calls that wait to be recorded are at most
-- `n + width` together: the limit itself with one call at a time, one more for every other.
pub Reachable-bounded :
    {n width : ℕ} {waiting : List Text} {m : SubagentManager}
    → Reachable (suc n) width waiting m
    → (q : Text) → active_count q m + count q waiting ≤ n + width
Reachable-bounded {n} {width} {waiting} reach q =
    omega (arith, (Reachable-IsKept reach).1.1 q, count-le q waiting, Reachable-width reach)

settle-Reachable :
    {limit width : ℕ} {waiting : List Text} (id key : Text) (p : SpawnParams)
    (reply : Reply × SubagentManager)
    → Reachable limit width waiting reply.1
    → Reachable limit width waiting (settle id key p reply).1
unfolding settle
settle-Reachable id key p (answer s, m) reach = elim (Bool-cases (is_empty s)) [
  | inl silent ↦ rw silent reach
  | inr spoken ↦ rw spoken (completed_run id s reach)
]
settle-Reachable id key p (threw e, m) reach = failed_run id e reach

-- A call of Spawn with a fresh run id, where one more may be between check and record, is a sequence
-- of the manager's steps, if all that its runner does to the manager is.
pub spawn-Reachable :
    {limit width : ℕ} {waiting : List Text} {m : SubagentManager} (runner : AgentRunner)
    (steps : (k t l e : Text) (m' : SubagentManager)
      → Reachable limit width waiting m'
      → Reachable limit width waiting (runner k t l e m').1)
    (hex hex' : Text) (p : SpawnParams) (parent : Text) (depth : ℤ)
    → Reachable limit width waiting m
    → suc (length waiting) ≤ width
    → find (run_id_of hex) m.runs ≡ none
    → Reachable limit width waiting (spawn (some runner) hex hex' p parent depth m).1
unfolding spawn launch
spawn-Reachable {limit} {width} {waiting} {m} runner steps hex hex' p parent depth reach few fresh =
    let id = run_id_of hex in
    let key = session_key_of (target_agent p) hex' in
    elim (Option-cases (check_spawn p parent depth m)) [
      | inr (refusal, refused) ↦ rw (refused, spawn) reach
      | inl free ↦
          rw (free, spawn)
            (settle-Reachable id key p _ (
              steps key p.task p.model _ (record_run id key p parent m) (
                recorded [] waiting id key p parent (checked p parent depth reach free few) fresh)))
    ]
