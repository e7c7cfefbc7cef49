-- ===== src/Core/SessionCompaction/Recent.antt =====
-- What a compaction keeps.
use qwen_claw.Base.{
  ℕ, ◌-◌, ◌≤◌, ◌<◌, min, ◌≡◌, ◌∙◌, ap, true, List, ◌∷◌, ◌++◌, map, Option, some, arith, length,
  take, drop, leb, if◌then◌else◌, Bool-cases, Option-cases, inl, inr,
}
use qwen_claw.Base.Int.{pos}
use qwen_claw.Base.Text.{Text, codes, is_empty}
use qwen_claw.Core.SessionCompaction.{
  Options, Kept, original, summary_of, removed, needs_compaction, truncate_to, summarized, replaced,
  compact_to, compact,
}

module _ {J : Type 0} where
  truncate_to-recent :
      (k : ℕ) (messages : List J)
      → k < length messages
      → truncate_to k messages
        ≡ removed (length messages - k) ∷ map original (drop (length messages - k) messages)
  unfolding truncate_to
  truncate_to-recent k messages longer =
      let keep : min k (length messages) ≡ k = omega (arith, longer) in
      ap
        (λ n.
          if leb (length messages) n
          then map original messages
          else removed (length messages - n) ∷ map original (drop (length messages - n) messages))
        keep
      ∙ ground (arith, longer)

  replaced-recent :
      (f : Option (List J → Option Text)) (k : ℕ) (messages : List J)
      → k < length messages
      → (head : Kept J) × (replaced f k (length messages - k) messages
          ≡ head ∷ map original (drop (length messages - k) messages))
  unfolding replaced
  replaced-recent f k messages longer =
      let cut = length messages - k in
      elim (Option-cases (summarized f (take cut messages))) [
        | inl thrown ↦ (removed cut, ground (arith, thrown, truncate_to-recent k messages longer))
        | inr (summary, known) ↦ elim (Bool-cases (is_empty summary)) [
          | inl silent ↦
              (removed cut, ground (arith, known, silent, truncate_to-recent k messages longer))
          | inr spoken ↦ (
            summary_of (codes "[Compacted conversation summary]\n" ++ summary) cut,
            ground (arith, known, spoken),
          )
        ]
      ]

  compact_to-recent :
      (f : Option (List J → Option Text)) (k : ℕ) (messages : List J)
      → k < length messages
      → compact_to f k messages ≡ replaced f k (length messages - k) messages
  unfolding compact_to
  compact_to-recent f k messages longer =
      let keep : min k (length messages) ≡ k = omega (arith, longer) in
      ap
        (λ n.
          if leb (length messages - n) 0
          then map original messages
          else replaced f k (length messages - n) messages)
        keep
      ∙ ground (arith, longer)

  compact_to-short :
      (f : Option (List J → Option Text)) (k : ℕ) (messages : List J)
      → length messages ≤ k
      → compact_to f k messages ≡ map original messages
  unfolding compact_to
  compact_to-short f k messages short = ground (arith, short)

  compact_needed :
      (content : J → Option Text) (o : Options) (f : Option (List J → Option Text))
      (messages : List J) (k : ℕ)
      → o.keep_recent ≡ pos k
      → needs_compaction content o messages ≡ true
      → compact content o f messages ≡ some (compact_to f k messages)
  unfolding compact
  compact_needed content o f messages k keep needed = ground (arith, keep, needed)

  -- A compaction that is needed keeps the most recent messages in their order and puts one message
  -- before them for those that were cut, also where the summary throws or is empty.
  pub compact-recent :
      (content : J → Option Text) (o : Options) (f : Option (List J → Option Text))
      (messages : List J) (k : ℕ)
      → o.keep_recent ≡ pos k
      → needs_compaction content o messages ≡ true
      → k < length messages
      → (head : Kept J) × (compact content o f messages
          ≡ some (head ∷ map original (drop (length messages - k) messages)))
  compact-recent content o f messages k keep needed longer =
      let (head, e) = replaced-recent f k messages longer in
      (
        head,
        compact_needed content o f messages k keep needed
            ∙ ap some (compact_to-recent f k messages longer ∙ e),
      )

  -- With no more messages than are kept, nothing is cut, however many tokens they have.
  pub compact-short :
      (content : J → Option Text) (o : Options) (f : Option (List J → Option Text))
      (messages : List J) (k : ℕ)
      → o.keep_recent ≡ pos k
      → length messages ≤ k
      → compact content o f messages ≡ some (map original messages)
  unfolding compact
  compact-short content o f messages k keep short =
      ground (arith, keep, compact_to-short f k messages short)
