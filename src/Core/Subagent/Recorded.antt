-- ===== src/Core/Subagent/Recorded.antt =====
-- A recorded run: the bookkeeping and the limit are kept.
use qwen_claw.Base.{
  ℕ, suc, ◌+◌, ◌≤◌, ◌≡◌, ◌∙◌, refl, ap, subst, true, false, [], ◌∷◌, ◌++◌, none, some, arith,
  Bool-cases, Option-cases, inl, inr, keep_if, length, if◌then◌else◌,
}
use qwen_claw.Base.Int.{ℤ, pos, negsuc, ltb_ℤ}
use qwen_claw.Base.Text.{Text, text_eq, text_eq_iff, text_eq_refl, text_eq_comm}
use qwen_claw.Base.Dict.{find, find-insert}
use qwen_claw.Core.Subagent.{
  SubagentRun, SubagentManager, SpawnParams, is_active, has_too_many, record_run, new_run,
}
use qwen_claw.Core.Subagent.Owned.{
  children, listed, active_count, IsOwned, count-append, count-unlisted, listed-append,
}

-- A fresh id is in nobody's list.
unlisted :
    (id p : Text) (m : SubagentManager)
    → IsOwned m
    → find id m.runs ≡ none
    → listed id (children p m) ≡ false
unlisted id p m owned fresh = elim (Bool-cases (listed id (children p m))) [
  | inr out ↦ out
  | inl into ↦ let (r, known, under) = owned p id into in absurd (ground (arith, fresh, known))
]

children-record_run :
    (id key : Text) (p : SpawnParams) (parent q : Text) (m : SubagentManager)
    → children q (record_run id key p parent m)
      ≡ (if text_eq parent q then children parent m ++ (id ∷ []) else children q m)
unfolding record_run
children-record_run id key p parent q m = elim (Option-cases (find parent m.parent_children)) [
  | inl missing ↦ ground (arith, missing, find-insert q parent (id ∷ []) m.parent_children)
  | inr (ids, found) ↦
      ground (arith, found, find-insert q parent (ids ++ (id ∷ [])) m.parent_children)
]

-- The runs but the new one are as before, and the new one belongs to the parent.
find-record_run :
    (id key : Text) (p : SpawnParams) (parent i : Text) (m : SubagentManager)
    → text_eq id i ≡ false
    → find i (record_run id key p parent m).runs ≡ find i m.runs
unfolding record_run
find-record_run id key p parent i m other =
    ground (arith, other, find-insert i id (new_run id key p parent) m.runs)

found-record_run :
    (id key : Text) (p : SpawnParams) (parent : Text) (m : SubagentManager)
    → (r : SubagentRun) × (find id (record_run id key p parent m).runs ≡ some r)
      × (r.parent_session_key ≡ parent)
unfolding record_run
found-record_run id key p parent m = (
  new_run id key p parent,
  find-insert id id (new_run id key p parent) m.runs
      ∙ ap (λ b. if b then some (new_run id key p parent) else find id m.runs) (text_eq_refl id),
  refl,
)

pub record_run-IsOwned :
    (id key : Text) (p : SpawnParams) (parent : Text) (m : SubagentManager)
    → find id m.runs ≡ none
    → IsOwned m
    → IsOwned (record_run id key p parent m)
record_run-IsOwned id key p parent m fresh owned q i h = elim (Bool-cases (text_eq id i)) [
  | inl same ↦
      let e = (text_eq_iff id i).0 same in
      elim (Bool-cases (text_eq parent q)) [
        | inl here ↦
            subst
              (λ j.
                (r : SubagentRun) × (find j (record_run id key p parent m).runs ≡ some r)
                × (r.parent_session_key ≡ q))
              e
              (subst
                (λ q'.
                  (r : SubagentRun) × (find id (record_run id key p parent m).runs ≡ some r)
                  × (r.parent_session_key ≡ q'))
                ((text_eq_iff parent q).0 here) (found-record_run id key p parent m))
        | inr there ↦ absurd (
            ground (
              arith,
              h,
              there,
              children-record_run id key p parent q m,
              unlisted id q m owned fresh,
              same,
              ap (λ j. listed j (children q m)) e,
            ))
      ]
  | inr other ↦
      let old : listed i (children q m) ≡ true = elim (Bool-cases (text_eq parent q)) [
        | inl here ↦ ground (
          arith,
          h,
          here,
          children-record_run id key p parent q m,
          listed-append i id (children parent m),
          other,
          text_eq_comm i id,
          ap (λ c. listed i (children c m)) ((text_eq_iff parent q).0 here),
        )
        | inr there ↦ ground (arith, h, there, children-record_run id key p parent q m)
      ] in
      let (r, known, under) = owned q i old in
      (r, find-record_run id key p parent i m other ∙ known, under)
]

is_active-record_run :
    (id key : Text) (p : SpawnParams) (parent : Text) (m : SubagentManager) (i : Text)
    → text_eq id i ≡ false
    → is_active (record_run id key p parent m) i ≡ is_active m i
unfolding is_active
is_active-record_run id key p parent m i other =
    rw (find-record_run id key p parent i m other, is_active) refl

below_limit :
    (k n : ℕ) (limit : ℤ) → ltb_ℤ (pos k) limit ≡ true → ltb_ℤ (pos (suc n)) limit ≡ false → k ≤ n
below_limit k n (pos limit) low high = ground (arith, low, high)
below_limit k n (negsuc limit) low high = absurd (ground (arith, low))

-- The children's limit, as the check of Spawn leaves it.
pub has_room :
    (parent : Text) (m : SubagentManager) (n : ℕ)
    → ltb_ℤ (pos (suc n)) m.config.max_children ≡ false
    → has_too_many m parent ≡ false
    → active_count parent m ≤ n
unfolding has_too_many
has_room parent m n limit h = elim (Option-cases (find parent m.parent_children)) [
  | inl missing ↦ ground (arith, missing)
  | inr (ids, found) ↦
      let k = length (keep_if (is_active m) ids) in
      let low : ltb_ℤ (pos k) m.config.max_children ≡ true = ground (arith, found, h) in
      ground (arith, found, below_limit k n m.config.max_children low limit)
]

-- A recorded run is one more at work for its parent, and none for the others.
pub active_count-record_run :
    (id key : Text) (p : SpawnParams) (parent q : Text) (m : SubagentManager)
    → find id m.runs ≡ none
    → IsOwned m
    → active_count q (record_run id key p parent m)
      ≤ active_count q m + (if text_eq parent q then 1 else 0)
active_count-record_run id key p parent q m fresh owned =
    let m' = record_run id key p parent m in
    let same =
      count-unlisted (is_active m) (is_active m') id (is_active-record_run id key p parent m) in
    elim (Bool-cases (text_eq parent q)) [
      | inl here ↦ rw here (
          omega (
            arith,
            ap (λ ids. length (keep_if (is_active m') ids))
                (children-record_run id key p parent q m
                  ∙ ap (λ b. if b then children parent m ++ (id ∷ []) else children q m) here),
            count-append (is_active m') (children parent m) id,
            same (children parent m) (unlisted id parent m owned fresh),
            ap (λ c. active_count c m) ((text_eq_iff parent q).0 here),
          ))
      | inr there ↦ rw there (
          omega (
            arith,
            ap (λ ids. length (keep_if (is_active m') ids))
                (children-record_run id key p parent q m
                  ∙ ap (λ b. if b then children parent m ++ (id ∷ []) else children q m) there),
            same (children q m) (unlisted id q m owned fresh),
          ))
    ]
