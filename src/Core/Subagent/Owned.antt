-- ===== src/Core/Subagent/Owned.antt =====
-- The bookkeeping of children, and the limit on those at work.
use qwen_claw.Base.{
  ℕ, ◌+◌, ◌≤◌, ◌≡◌, ◌∙◌, refl, sym, ap, Bool, true, false, not, ◌||◌, List, [], ◌∷◌, ◌++◌, none,
  some, arith, Bool-cases, Option-cases, inl, inr, any_of, keep_if, length,
}
use qwen_claw.Base.Text.{Text, text_eq, text_eq_iff}
use qwen_claw.Base.Dict.{find, insert, find-insert}
use qwen_claw.Core.Subagent.{SubagentRun, SubagentManager, is_active, is_running}

-- The list of a parent's children, empty where there is none.
abbrev pub children : Text → SubagentManager → List Text
children p m = elim (find p m.parent_children) [ none ↦ [] | some ids ↦ ids ]

abbrev pub listed : Text → List Text → Bool
listed id ids = any_of (text_eq id) ids

-- How many of a parent's children are at work.
abbrev pub active_count : Text → SubagentManager → ℕ
active_count p m = length (keep_if (is_active m) (children p m))

-- Whoever is listed is known, as a child of that parent.
abbrev pub IsOwned : SubagentManager → Type 0
IsOwned m =
    (p id : Text)
    → listed id (children p m) ≡ true
    → (r : SubagentRun) × (find id m.runs ≡ some r) × (r.parent_session_key ≡ p)

-- Each parent has its own bound.
abbrev pub IsBounded : (Text → ℕ) → SubagentManager → Type 0
IsBounded bound m = (p : Text) → active_count p m ≤ bound p

-- Counting over two lists.
pub count-fewer :
    (q q' : Text → Bool) (h : (i : Text) → q' i ≡ true → q i ≡ true) (ids : List Text)
    → length (keep_if q' ids) ≤ length (keep_if q ids)
count-fewer q q' h [] = omega arith
count-fewer q q' h (i ∷ ids) = elim (Bool-cases (q' i)) [
  | inl kept ↦ ground (arith, kept, h i kept, count-fewer q q' h ids)
  | inr left ↦ ground (arith, left, count-fewer q q' h ids)
]

pub count-keep_if :
    (q p : Text → Bool) (ids : List Text)
    → length (keep_if q (keep_if p ids)) ≤ length (keep_if q ids)
count-keep_if q p [] = omega arith
count-keep_if q p (i ∷ ids) = ground (arith, count-keep_if q p ids)

pub count-append :
    (q : Text → Bool) (ids : List Text) (id : Text)
    → length (keep_if q (ids ++ (id ∷ []))) ≤ length (keep_if q ids) + 1
count-append q [] id = ground arith
count-append q (i ∷ ids) id = ground (arith, count-append q ids id)

pub count-unlisted :
    (q q' : Text → Bool) (id : Text) (h : (i : Text) → text_eq id i ≡ false → q' i ≡ q i)
    (ids : List Text)
    → listed id ids ≡ false
    → length (keep_if q' ids) ≡ length (keep_if q ids)
count-unlisted q q' id h [] u = refl
count-unlisted q q' id h (i ∷ ids) u =
    ground (arith, u, h i (ground (arith, u)), count-unlisted q q' id h ids (ground (arith, u)))

pub listed-append :
    (i id : Text) (ids : List Text) → listed i (ids ++ (id ∷ [])) ≡ (listed i ids || text_eq i id)
listed-append i id [] = ground arith
listed-append i id (j ∷ ids) = ground (arith, listed-append i id ids)

pub listed-keep_if :
    (i id : Text) (ids : List Text)
    → listed i (keep_if (λ j. not (text_eq j id)) ids) ≡ true
    → (listed i ids ≡ true) × (text_eq i id ≡ false)
listed-keep_if i id [] h = absurd (ground (arith, h))
listed-keep_if i id (j ∷ ids) h =
    ground (arith, h, listed-keep_if i id ids, text_eq_iff i j, text_eq_iff j id, text_eq_iff i id)

-- A step that keeps the lists and starts nothing keeps the bound.
pub IsBounded-fewer :
    (bound : Text → ℕ) (m m' : SubagentManager)
    → m'.parent_children ≡ m.parent_children
    → ((i : Text) → is_active m' i ≡ true → is_active m i ≡ true)
    → IsBounded bound m
    → IsBounded bound m'
IsBounded-fewer bound m m' lists fewer bounded p =
    let same : length (keep_if (is_active m') (children p m'))
        ≡ length (keep_if (is_active m') (children p m)) =
      ap (λ c. length (keep_if (is_active m') (elim (find p c) [ none ↦ [] | some ids ↦ ids ])))
        lists in
    omega (arith, same, count-fewer (is_active m) (is_active m') fewer (children p m), bounded p)

-- An ended run: its record is replaced by one that is not running, of the same parent.
abbrev pub ended : Text → SubagentRun → SubagentManager → SubagentManager
ended id r m = record m { runs = insert id r m.runs }

pub ended-fewer :
    (id : Text) (r : SubagentRun) (m : SubagentManager)
    → is_running r.state ≡ false
    → (i : Text) → is_active (ended id r m) i ≡ true
    → is_active m i ≡ true
unfolding is_active
ended-fewer id r m over i h = elim (Bool-cases (text_eq id i)) [
  | inl same ↦ absurd (ground (arith, h, over, same, find-insert i id r m.runs))
  | inr other ↦ elim (Option-cases (find i m.runs)) [
    | inl missing ↦ absurd (ground (arith, h, other, missing, find-insert i id r m.runs))
    | inr (s, found) ↦ ground (arith, h, other, found, find-insert i id r m.runs)
  ]
]

pub ended-IsOwned :
    (id : Text) (r s : SubagentRun) (m : SubagentManager)
    → find id m.runs ≡ some s
    → r.parent_session_key ≡ s.parent_session_key
    → IsOwned m
    → IsOwned (ended id r m)
ended-IsOwned id r s m found parent owned p i h =
    let (t, known, under) = owned p i h in
    elim (Bool-cases (text_eq id i)) [
      | inl same ↦
          let e : find i m.runs ≡ some s =
            ap (λ j. find j m.runs) (sym ((text_eq_iff id i).0 same)) ∙ found in
          (
            r,
            ground (arith, same, find-insert i id r m.runs),
            ground (arith, parent, e, known, under),
          )
      | inr other ↦ (t, ground (arith, other, known, find-insert i id r m.runs), under)
    ]
