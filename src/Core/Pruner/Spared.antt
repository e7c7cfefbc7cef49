-- ===== src/Core/Pruner/Spared.antt =====
-- Which messages pruning leaves alone, and what it makes of the others, by the messages around them.
use qwen_claw.Base.{
  ℕ, zero, suc, ◌+◌, ◌-◌, ◌≤◌, ◌<◌, ◌≡◌, ◌∙◌, inl, inr, refl, sym, ap, Bool, false, not, ◌&&◌, ◌||◌,
  List, [], ◌∷◌, ◌++◌, Option, some, arith, get_elem?, any_of, keep_if, length, ltb, leb,
  get_elem?-lt, Bool-cases, if◌then◌else◌,
}
use qwen_claw.Base.Text.{codes, text_eq, is_empty}
use qwen_claw.Core.Messages.{Message}
use qwen_claw.Core.Pruner.Shape.{prune-shape, effective_positive}
use qwen_claw.Core.Pruner.{
  Options, Rounding, effective, assistant_indices, bootstrap_end, Threshold, undefined, unset, at,
  threshold, prune_message, prune_from, with_thresholds, prune, is_protected, is_bootstrap,
  is_before, prune_blocks, is_tool_result,
}

abbrev pub is_user : Message → Bool
is_user m = text_eq m.role (codes "user")

abbrev pub is_assistant : Message → Bool
is_assistant m = text_eq m.role (codes "assistant")

-- How many messages are the assistant's.
abbrev pub turns : List Message → ℕ
turns ms = length (keep_if is_assistant ms)

length-assistant_indices : (i : ℕ) (ms : List Message) → length (assistant_indices i ms) ≡ turns ms
unfolding assistant_indices
length-assistant_indices i [] = refl
length-assistant_indices i (m ∷ ms) = ground (arith, length-assistant_indices (suc i) ms)

-- The indices of messages from the `i`-th on are not below `i`.
index-le :
    (i : ℕ) (ms : List Message) (k t : ℕ) → get_elem? (assistant_indices i ms) k ≡ some t → i ≤ t
unfolding assistant_indices
index-le i [] k t h = absurd (ground (arith, h))
index-le i (m ∷ ms) zero t h = elim (Bool-cases (is_assistant m)) [
  | inl said ↦ ground (arith, h, said)
  | inr other ↦ omega (arith, index-le (suc i) ms zero t (ground (arith, h, other)))
]
index-le i (m ∷ ms) (suc k) t h = elim (Bool-cases (is_assistant m)) [
  | inl said ↦ omega (arith, index-le (suc i) ms k t (ground (arith, h, said)))
  | inr other ↦ omega (arith, index-le (suc i) ms (suc k) t (ground (arith, h, other)))
]

-- The index of the assistant's message number `k` is at most that of `m` just when no more than `k`
-- of the messages up to `m` are the assistant's.
leb-index :
    (i : ℕ) (before : List Message) (m : Message) (after : List Message) (k t : ℕ)
    → get_elem? (assistant_indices i (before ++ m ∷ after)) k ≡ some t
    → leb t (i + length before) ≡ ltb k (turns before + turns (m ∷ []))
unfolding assistant_indices
leb-index i [] m after zero t h = elim (Bool-cases (is_assistant m)) [
  | inl said ↦ ground (arith, h, said)
  | inr other ↦
      let low = index-le (suc i) after zero t (ground (arith, h, other)) in
      ground (arith, other, low)
]
leb-index i [] m after (suc k) t h = elim (Bool-cases (is_assistant m)) [
  | inl said ↦
      let low = index-le (suc i) after k t (ground (arith, h, said)) in ground (arith, said, low)
  | inr other ↦
      let low = index-le (suc i) after (suc k) t (ground (arith, h, other)) in
      ground (arith, other, low)
]
leb-index i (x ∷ before) m after zero t h = elim (Bool-cases (is_assistant x)) [
  | inl said ↦ ground (arith, h, said)
  | inr other ↦
      ground (arith, other, leb-index (suc i) before m after zero t (ground (arith, h, other)))
]
leb-index i (x ∷ before) m after (suc k) t h = elim (Bool-cases (is_assistant x)) [
  | inl said ↦ ground (arith, said, leb-index (suc i) before m after k t (ground (arith, h, said)))
  | inr other ↦
      ground (arith, other, leb-index (suc i) before m after (suc k) t (ground (arith, h, other)))
]

turns-append : (xs ys : List Message) → turns (xs ++ ys) ≡ turns xs + turns ys
turns-append [] ys = omega arith
turns-append (x ∷ xs) ys = ground (arith, turns-append xs ys)

-- Seen from before a list, its first user's message ends the start of the conversation.
is_bootstrap-ahead :
    (i j : ℕ) (ms : List Message) → j ≤ i → is_bootstrap (bootstrap_end i ms) j ≡ any_of is_user ms
unfolding bootstrap_end
is_bootstrap-ahead i j [] h = refl
is_bootstrap-ahead i j (m ∷ ms) h = ground (arith, h, is_bootstrap-ahead (suc i) j ms)

-- No user has spoken before the message, but one does from it on.
abbrev pub is_opening : List Message → List Message → Bool
is_opening before rest = not (any_of is_user before) && any_of is_user rest

is_bootstrap-opening :
    (i : ℕ) (before : List Message) (m : Message) (after : List Message)
    → is_bootstrap (bootstrap_end i (before ++ m ∷ after)) (i + length before)
      ≡ is_opening before (m ∷ after)
unfolding bootstrap_end
is_bootstrap-opening i [] m after = ground (arith, is_bootstrap-ahead (suc i) i after)
is_bootstrap-opening i (x ∷ before) m after =
    ground (arith, is_bootstrap-opening (suc i) before m after)

-- Fewer than `n` of the later messages are the assistant's, or no more than `n` of all.
abbrev pub is_recent : ℕ → List Message → List Message → Bool
is_recent n history after = leb (turns history) n || ltb (turns after) n

no_more :
    (n : ℕ) (indices : List ℕ)
    → (ltb n (length indices) && not (is_empty indices)) ≡ false
    → length indices ≤ n
no_more n [] h = omega arith
no_more n (i ∷ indices) h = ground (arith, h)

is_protected-recent :
    (n : ℕ) (before : List Message) (m : Message) (after : List Message)
    → 0 < n
    → is_protected (threshold (assistant_indices 0 (before ++ m ∷ after)) n) (0 + length before)
      ≡ is_recent n (before ++ m ∷ after) after
unfolding threshold
is_protected-recent n before m after h =
    let history = before ++ m ∷ after in
    let indices = assistant_indices 0 history in
    let size = length-assistant_indices 0 history in
    let parts : turns history ≡ turns before + (turns (m ∷ []) + turns after) =
      turns-append before (m ∷ after) ∙ ap (λ k. turns before + k) (turns-append (m ∷ []) after) in
    elim (Bool-cases (ltb n (length indices) && not (is_empty indices))) [
      | inr few ↦ ground (arith, few, no_more n indices few, size)
      | inl many ↦
          let (t, found) = get_elem?-lt indices (length indices - n) (ground (arith, many, h)) in
          ground (
            arith,
            many,
            found,
            leb-index 0 before m after (length indices - n) t found,
            size,
            parts,
          )
    ]

is_before-protected : (t : Threshold) (i : ℕ) → is_before t i ≡ not (is_protected t i)
is_before-protected undefined i = refl
is_before-protected unset i = refl
is_before-protected (at t) i = ground arith

get_elem?-prune_from :
    (o : Options) (protect hard : Threshold) (boot : Option ℕ) (i : ℕ) (before : List Message)
    (m : Message) (after : List Message)
    → get_elem? (prune_from o protect hard boot i (before ++ m ∷ after)) (length before)
      ≡ some (prune_message o protect hard boot (i + length before) m)
unfolding prune_from
get_elem?-prune_from o protect hard boot i [] m after =
    ap (λ j. some (prune_message o protect hard boot j m)) {x = i} {y = i + 0} (omega arith)
get_elem?-prune_from o protect hard boot i (x ∷ before) m after =
    get_elem?-prune_from o protect hard boot (suc i) before m after
    ∙ ap (λ j. some (prune_message o protect hard boot j m)) {x = suc i + length before}
        {y = i + suc (length before)} (omega arith)

-- What pruning makes of a message.
abbrev pub pruned : Options → List Message → List Message → Message → List Message → Message
pruned o history before m after =
    if not (any_of is_tool_result m.blocks)
      || (is_recent o.protect_recent history after || is_opening before (m ∷ after))
    then m
    else record m {
      blocks = prune_blocks o (not (is_recent o.hard_prune_after history after)) m.blocks;
    }

prune_message-pruned :
    (o : Options) (before : List Message) (m : Message) (after : List Message)
    → 0 < o.protect_recent
    → 0 < o.hard_prune_after
    → let history = before ++ m ∷ after in
      let indices = assistant_indices 0 history in
      prune_message o
        (threshold indices o.protect_recent)
        (threshold indices o.hard_prune_after)
        (bootstrap_end 0 history)
        (0 + length before)
        m
      ≡ pruned o history before m after
unfolding prune_message
prune_message-pruned o before m after p h =
    let indices = assistant_indices 0 (before ++ m ∷ after) in
    ground (
      arith,
      is_protected-recent o.protect_recent before m after p,
      is_bootstrap-opening 0 before m after,
      is_before-protected (threshold indices o.hard_prune_after) (0 + length before),
      is_protected-recent o.hard_prune_after before m after h,
    )

with_thresholds-pruned :
    (o : Options) (protect hard : Threshold) (history out : List Message)
    → with_thresholds o protect hard history ≡ some out
    → out ≡ prune_from o protect hard (bootstrap_end 0 history) 0 history
unfolding with_thresholds
with_thresholds-pruned o undefined hard history out e = absurd (ground (arith, e))
with_thresholds-pruned o unset undefined history out e = absurd (ground (arith, e))
with_thresholds-pruned o (at t) undefined history out e = absurd (ground (arith, e))
with_thresholds-pruned o unset unset history out e = ground (arith, e)
with_thresholds-pruned o unset (at h) history out e = ground (arith, e)
with_thresholds-pruned o (at t) unset history out e = ground (arith, e)
with_thresholds-pruned o (at t) (at h) history out e = ground (arith, e)

prune-thresholds :
    (r : Rounding) (o : Options) (before : List Message) (m : Message) (after : List Message)
    → let history = before ++ m ∷ after in
      let indices = assistant_indices 0 history in
      prune r o history
      ≡ with_thresholds
          (effective r o history)
          (threshold indices (effective r o history).protect_recent)
          (threshold indices (effective r o history).hard_prune_after)
          history
unfolding prune
prune-thresholds r o [] m after = refl
prune-thresholds r o (x ∷ before) m after = refl

-- Unless a setting is 0, pruning returns, and every message of a conversation is in its place as it
-- was, if it has no tool result, if fewer than the protected number of the assistant's messages come
-- after it or there are no more than that in all, or if no user speaks before it but one does from it
-- on; every other message has its tool results pruned, and left out altogether where at least the
-- number of the second setting comes after it and there are more than that in all.
pub prune-spared :
    (r : Rounding) (o : Options) (before : List Message) (m : Message) (after : List Message)
    → 0 < o.protect_recent
    → 0 < o.hard_prune_after
    → let history = before ++ m ∷ after in
      (out : List Message) × (prune r o history ≡ some out)
      × (get_elem? out (length before)
          ≡ some (pruned (effective r o history) history before m after))
prune-spared r o before m after p h =
    let history = before ++ m ∷ after in
    let e = effective r o history in
    let indices = assistant_indices 0 history in
    let protect = threshold indices e.protect_recent in
    let hard = threshold indices e.hard_prune_after in
    let (out, returned, shaped) = prune-shape r o history p h in
    let positive = effective_positive r o history p h in
    (
      out,
      returned,
      ap (λ ms. get_elem? ms (length before))
            (with_thresholds-pruned e protect hard history out
              (sym (prune-thresholds r o before m after) ∙ returned))
          ∙ get_elem?-prune_from e protect hard (bootstrap_end 0 history) 0 before m after
          ∙ ap some (prune_message-pruned e before m after positive.0 positive.1),
    )
