-- ===== src/Core/Subagent/Cleanup.antt =====
-- What CleanupCompleted leaves.
use qwen_claw.Base.{
  ◌≡◌, ◌∙◌, refl, ap, true, List, [], ◌∷◌, Option, none, some, arith, All, Bool-cases, Option-cases,
  inl, inr, if◌then◌else◌,
}
use qwen_claw.Base.Text.{Text, text_eq, text_eq_iff, text_eq_comm}
use qwen_claw.Base.Dict.{Dict, find}
use qwen_claw.Core.Subagent.{
  SubagentRun, SubagentManager, is_done, done_ids, remove_run, remove_all, cleanup_completed,
}
use qwen_claw.Core.Subagent.Owned.{listed}
use qwen_claw.Core.Subagent.Removed.{find-remove_run}

-- No key stands twice with different runs.
abbrev pub IsMap : Dict SubagentRun → Type 0
IsMap runs = All (λ e. find e.0 runs ≡ some e.1) runs

find-remove_all :
    (i : Text) (ids : List Text) (m : SubagentManager)
    → find i (remove_all ids m).runs ≡ (if listed i ids then none else find i m.runs)
unfolding remove_all
find-remove_all i [] m = refl
find-remove_all i (id ∷ ids) m =
    ground
      (arith, find-remove_all i ids (remove_run id m), find-remove_run id i m, text_eq_comm i id)

done_ids-listed :
    (i : Text) (r : SubagentRun) (runs : Dict SubagentRun)
    → find i runs ≡ some r
    → is_done r ≡ true
    → listed i (done_ids runs) ≡ true
unfolding find done_ids
done_ids-listed i r [] found done = absurd (ground (arith, found))
done_ids-listed i r ((j, s) ∷ runs) found done =
    ground (arith, found, done, text_eq_comm i j, done_ids-listed i r runs)

done_ids_sound :
    (whole : Dict SubagentRun) (i : Text) (runs : Dict SubagentRun)
    → All (λ e. find e.0 whole ≡ some e.1) runs
    → listed i (done_ids runs) ≡ true
    → (r : SubagentRun) × (find i whole ≡ some r) × (is_done r ≡ true)
unfolding done_ids
done_ids_sound whole i [] h into = absurd (ground (arith, into))
done_ids_sound whole i ((j, s) ∷ runs) h into = elim (Bool-cases (is_done s)) [
  | inr kept ↦ done_ids_sound whole i runs h.1 (ground (arith, into, kept))
  | inl done ↦ elim (Bool-cases (text_eq i j)) [
    | inl same ↦ (s, ap (λ k. find k whole) ((text_eq_iff i j).0 same) ∙ h.0, done)
    | inr other ↦ done_ids_sound whole i runs h.1 (ground (arith, into, done, other))
  ]
]

abbrev pub unless_done : SubagentRun → Option SubagentRun
unless_done r = if is_done r then none else some r

-- After a cleanup exactly the runs that had ended and asked for it are gone, and every other run is
-- as before.
pub find-cleanup_completed :
    (i : Text) (m : SubagentManager)
    → IsMap m.runs
    → find i (cleanup_completed m).1.runs
      ≡ elim (find i m.runs) [ none ↦ none | some r ↦ unless_done r ]
unfolding cleanup_completed
find-cleanup_completed i m map = elim (Option-cases (find i m.runs)) [
  | inl missing ↦ ground (arith, missing, find-remove_all i (done_ids m.runs) m)
  | inr (r, found) ↦ elim (Bool-cases (is_done r)) [
    | inl done ↦ ground (
      arith,
      found,
      done,
      find-remove_all i (done_ids m.runs) m,
      done_ids-listed i r m.runs found done,
    )
    | inr kept ↦ elim (Bool-cases (listed i (done_ids m.runs))) [
      | inl into ↦
          let (s, known, done) = done_ids_sound m.runs i m.runs map into in
          absurd (ground (arith, found, known, done, kept))
      | inr out ↦ ground (arith, found, kept, out, find-remove_all i (done_ids m.runs) m)
    ]
  ]
]
