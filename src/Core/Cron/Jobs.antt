-- ===== src/Core/Cron/Jobs.antt =====
-- Taking a job out of the table.
use qwen_claw.Base.{
  ℕ, zero, suc, ◌+◌, ◌≡◌, ◌⊎◌, inl, inr, refl, sym, ap, subst, Bool, true, false, List, [], ◌∷◌,
  ◌++◌, some, All, All-append, arith, take, drop, get_elem?, Bool-cases, if_true, if_false,
  if◌then◌else◌,
}
use qwen_claw.Base.Text.{Text, text_eq, text_eq_iff, starts_with, is_empty}
use qwen_claw.Core.Cron.{
  CronJob, is_prefix, Found, exact, prefixes, find_jobs, erase_at, remove_found, remove_job,
}

starts_with_refl : (s : Text) → starts_with s s ≡ true
unfolding starts_with
starts_with_refl [] = refl
starts_with_refl (c ∷ s) = ground (arith, starts_with_refl s)

-- The index is that of a job whose id begins with `id`.
abbrev pub IsNamed : Text → List CronJob → ℕ → Type 0
IsNamed id jobs i = (job : CronJob) × (get_elem? jobs i ≡ some job) × (starts_with id job.id ≡ true)

abbrev AllFound : (ℕ → Type 0) → Found → Type 0
AllFound P (exact i) = P i
AllFound P (prefixes matches) = All P matches

AllFound-if :
    (P : ℕ → Type 0) (b : Bool) (x y : Found)
    → (b ≡ true → AllFound P x)
    → AllFound P y
    → AllFound P (if b then x else y)
AllFound-if P true x y hx hy = hx refl
AllFound-if P false x y hx hy = hy

All-if :
    (P : ℕ → Type 0) (b : Bool) (i : ℕ) (matches : List ℕ)
    → (b ≡ true → P i)
    → All P matches
    → All P (if b then matches ++ (i ∷ []) else matches)
All-if P true i matches h hs = All-append P matches (i ∷ []) hs (h refl, tt)
All-if P false i matches h hs = hs

find_jobs-AllFound :
    (P : ℕ → Type 0) (id : Text) (i : ℕ) (matches : List ℕ) (jobs : List CronJob)
    → ((j : ℕ) → IsNamed id jobs j → P (j + i))
    → All P matches
    → AllFound P (find_jobs id i matches jobs)
unfolding find_jobs is_prefix
find_jobs-AllFound P id i matches [] h hs = hs
find_jobs-AllFound P id i matches (job ∷ jobs) h hs =
    let here : starts_with id job.id ≡ true → P i =
      λ named. subst P {x = 0 + i} {y = i} (omega arith) (h 0 (job, refl, named)) in
    AllFound-if P (text_eq job.id id) _ _
      (λ same. here (
        subst (λ s. starts_with id s ≡ true) (sym ((text_eq_iff job.id id).0 same))
          (starts_with_refl id)))
      (find_jobs-AllFound P id (suc i) _ jobs
        (λ j named. subst P {x = suc j + i} {y = j + suc i} (omega arith) (h (suc j) named))
        (All-if P (is_prefix id job.id) i matches (λ prefix. here (ground (arith, prefix))) hs))

split_at :
    (jobs : List CronJob) (i : ℕ) (job : CronJob)
    → get_elem? jobs i ≡ some job
    → jobs ≡ take i jobs ++ (job ∷ drop (suc i) jobs)
split_at [] i job h = absurd (ground (arith, h))
split_at (j ∷ jobs) zero job h = ground (arith, h)
split_at (j ∷ jobs) (suc i) job h = ap (λ js. j ∷ js) (split_at jobs i job h)

-- One job is taken out whose id begins with `id`.
abbrev pub IsTakenOut : Text → List CronJob → Bool × List CronJob → Type 0
IsTakenOut id jobs out =
    (front : List CronJob) × (job : CronJob) × (back : List CronJob) × (jobs
      ≡ front ++ (job ∷ back))
    × (out ≡ (true, front ++ back))
    × (starts_with id job.id ≡ true)

taken_at :
    (id : Text) (jobs : List CronJob) (i : ℕ)
    → IsNamed id jobs i
    → IsTakenOut id jobs (true, erase_at i jobs)
unfolding erase_at
taken_at id jobs i (job, here, named) =
    (take i jobs, job, drop (suc i) jobs, split_at jobs i job here, refl, named)

remove_found-one :
    (id : Text) (jobs : List CronJob) (found : Found)
    → AllFound (IsNamed id jobs) found
    → (remove_found found jobs ≡ (false, jobs)) ⊎ IsTakenOut id jobs (remove_found found jobs)
unfolding remove_found
remove_found-one id jobs (exact i) h = inr (taken_at id jobs i h)
remove_found-one id jobs (prefixes []) h = inl refl
remove_found-one id jobs (prefixes (i ∷ [])) h = inr (taken_at id jobs i h.0)
remove_found-one id jobs (prefixes (i ∷ k ∷ matches)) h = inl refl

-- RemoveJob either refuses and leaves the table as it is, or takes out exactly one job, whose id
-- begins with the one given, and leaves the others in their order.
pub remove_job-one :
    (id : Text) (jobs : List CronJob)
    → (remove_job id jobs ≡ (false, jobs)) ⊎ IsTakenOut id jobs (remove_job id jobs)
unfolding remove_job
remove_job-one id jobs = elim (Bool-cases (is_empty id)) [
  | inl unnamed ↦ inl (if_true _ _ unnamed)
  | inr named ↦
      subst (λ out. (out ≡ (false, jobs)) ⊎ IsTakenOut id jobs out) (sym (if_false _ _ named))
        (remove_found-one id jobs (find_jobs id 0 [] jobs) (
          find_jobs-AllFound (IsNamed id jobs) id 0 [] jobs
            (λ j known. subst (IsNamed id jobs) {x = j} {y = j + 0} (omega arith) known) tt))
]
