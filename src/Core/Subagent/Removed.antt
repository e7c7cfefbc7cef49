-- ===== src/Core/Subagent/Removed.antt =====
-- Removed runs: the bookkeeping and the limit are kept.
use qwen_claw.Base.{
  ℕ, ◌≤◌, ◌≡◌, ◌∙◌, refl, sym, ap, subst, true, not, List, [], ◌∷◌, none, some, arith, Bool-cases,
  Option-cases, inl, inr, keep_if, length, if◌then◌else◌,
}
use qwen_claw.Base.Text.{Text, text_eq, text_eq_iff, text_eq_comm}
use qwen_claw.Base.Dict.{find, find-insert, find-erase}
use qwen_claw.Core.Subagent.{
  SubagentRun, SubagentManager, is_active, forget_child, remove_run, remove_all,
}
use qwen_claw.Core.Subagent.Owned.{
  children, listed, active_count, IsOwned, IsBounded, count-fewer, count-keep_if, listed-keep_if,
}

is_active-fewer :
    (id i : Text) (m : SubagentManager)
    → is_active (remove_run id m) i ≡ true
    → is_active m i ≡ true
unfolding is_active remove_run
is_active-fewer id i m h = elim (Option-cases (find id m.runs)) [
  | inl missing ↦ ground (arith, h, missing)
  | inr (r, found) ↦ ground (arith, h, found, find-erase i id m.runs)
]

children-remove_run :
    (id p : Text) (r : SubagentRun) (m : SubagentManager)
    → find id m.runs ≡ some r
    → children p (remove_run id m) ≡ (
        if text_eq r.parent_session_key p
        then keep_if (λ i. not (text_eq i id)) (children p m)
        else children p m)
unfolding remove_run forget_child
children-remove_run id p r m found =
    elim (Option-cases (find r.parent_session_key m.parent_children)) [
      | inl missing ↦ elim (Bool-cases (text_eq r.parent_session_key p)) [
        | inl here ↦ ground (
          arith,
          found,
          missing,
          here,
          ap (λ c. find c m.parent_children) ((text_eq_iff r.parent_session_key p).0 here),
        )
        | inr there ↦ ground (arith, found, missing, there)
      ]
      | inr (ids, known) ↦
          let new =
            find-insert p r.parent_session_key (keep_if (λ i. not (text_eq i id)) ids)
              m.parent_children in
          elim (Bool-cases (text_eq r.parent_session_key p)) [
            | inl here ↦ ground (
              arith,
              found,
              known,
              new,
              here,
              ap (λ c. find c m.parent_children) ((text_eq_iff r.parent_session_key p).0 here),
            )
            | inr there ↦ ground (arith, found, known, new, there)
          ]
    ]

remove_run-missing : (id : Text) (m : SubagentManager) → find id m.runs ≡ none → remove_run id m ≡ m
unfolding remove_run
remove_run-missing id m missing = ground (arith, missing)

remove_run-IsBounded :
    (id : Text) (m : SubagentManager) (n : Text → ℕ) → IsBounded n m → IsBounded n (remove_run id m)
remove_run-IsBounded id m n bounded p = elim (Option-cases (find id m.runs)) [
  | inl missing ↦
      subst (λ m'. active_count p m' ≤ n p) (sym (remove_run-missing id m missing)) (bounded p)
  | inr (r, found) ↦
      let m' = remove_run id m in
      let fewer = count-fewer (is_active m) (is_active m') (λ i. is_active-fewer id i m) in
      elim (Bool-cases (text_eq r.parent_session_key p)) [
        | inl here ↦ omega (
          arith,
          ap (λ ids. length (keep_if (is_active m') ids))
              (children-remove_run id p r m found
                ∙ ap
                    (λ b.
                      if b then keep_if (λ i. not (text_eq i id)) (children p m) else children p m)
                    here),
          fewer (keep_if (λ i. not (text_eq i id)) (children p m)),
          count-keep_if (is_active m) (λ i. not (text_eq i id)) (children p m),
          bounded p,
        )
        | inr there ↦ omega (
          arith,
          ap (λ ids. length (keep_if (is_active m') ids))
              (children-remove_run id p r m found
                ∙ ap
                    (λ b.
                      if b then keep_if (λ i. not (text_eq i id)) (children p m) else children p m)
                    there),
          fewer (children p m),
          bounded p,
        )
      ]
]

pub find-remove_run :
    (id i : Text) (m : SubagentManager)
    → find i (remove_run id m).runs ≡ (if text_eq id i then none else find i m.runs)
unfolding remove_run
find-remove_run id i m = elim (Option-cases (find id m.runs)) [
  | inl missing ↦ elim (Bool-cases (text_eq id i)) [
    | inl same ↦ ground (arith, missing, same, ap (λ j. find j m.runs) ((text_eq_iff id i).0 same))
    | inr other ↦ ground (arith, missing, other)
  ]
  | inr (r, found) ↦ ground (arith, found, find-erase i id m.runs)
]

remove_run-IsOwned : (id : Text) (m : SubagentManager) → IsOwned m → IsOwned (remove_run id m)
remove_run-IsOwned id m owned p i h = elim (Option-cases (find id m.runs)) [
  | inl missing ↦
      subst (λ m'. (r : SubagentRun) × (find i m'.runs ≡ some r) × (r.parent_session_key ≡ p))
        (sym (remove_run-missing id m missing))
        (owned p i
          (subst (λ m'. listed i (children p m') ≡ true) (remove_run-missing id m missing) h))
  | inr (r, found) ↦ elim (Bool-cases (text_eq r.parent_session_key p)) [
    | inl here ↦
        let kept =
          listed-keep_if i id (children p m)
            (ground (arith, h, here, children-remove_run id p r m found)) in
        let (s, known, under) = owned p i kept.0 in
        (s, ground (arith, known, find-remove_run id i m, text_eq_comm i id, kept.1), under)
    | inr there ↦
        let (s, known, under) =
          owned p i (ground (arith, h, there, children-remove_run id p r m found)) in
        elim (Bool-cases (text_eq id i)) [
          | inl same ↦ absurd (
              ground (
                arith,
                found,
                known,
                under,
                there,
                text_eq_iff r.parent_session_key p,
                ap (λ j. find j m.runs) ((text_eq_iff id i).0 same),
              ))
          | inr other ↦ (s, ground (arith, known, other, find-remove_run id i m), under)
        ]
  ]
]

pub remove_all-kept :
    (ids : List Text) (m : SubagentManager) (n : Text → ℕ)
    → IsOwned m
    → IsBounded n m
    → IsOwned (remove_all ids m) × IsBounded n (remove_all ids m)
unfolding remove_all
remove_all-kept [] m n owned bounded = (owned, bounded)
remove_all-kept (id ∷ ids) m n owned bounded =
    remove_all-kept ids (remove_run id m) n (remove_run-IsOwned id m owned)
      (remove_run-IsBounded id m n bounded)

pub config-remove_all :
    (ids : List Text) (m : SubagentManager) → (remove_all ids m).config ≡ m.config
unfolding remove_all remove_run
config-remove_all [] m = refl
config-remove_all (id ∷ ids) m = elim (Option-cases (find id m.runs)) [
  | inl missing ↦ ground (arith, missing, config-remove_all ids m)
  | inr (r, found) ↦ config-remove_all ids (remove_run id m) ∙ ground (arith, found)
]
