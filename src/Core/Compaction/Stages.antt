-- ===== src/Core/Compaction/Stages.antt =====
-- Whole compactions.
use qwen_claw.Base.{
  ℕ, suc, ◌/◌, ◌≤◌, ◌≡◌, true, false, ◌∙◌, refl, sym, ap, subst, ◌&&◌, List, [], ◌∷◌, ◌++◌, Option,
  none, some, All, arith, length, Bool-cases, inl, inr, ◌>>=◌, if◌then◌else◌,
}
use qwen_claw.Base.Int.{ℤ, pos, ltb_ℤ}
use qwen_claw.Base.Text.{Text, codes, is_empty}
use qwen_claw.Base.Decimal.{to_string_ℕ}
use qwen_claw.Core.Messages.{Message, text_message, estimate_all}
use qwen_claw.Core.Compaction.{
  CompactionOptions, Summary, summaries, merge_from, compacted, compacted_text, final_pass,
  in_stages, is_single_pass, compact_multi_stage, chunk_by_max_tokens,
}
use qwen_claw.Core.Compaction.Chunks.{IsWithin, chunk_by_max_tokens-IsWithin}

summaries-total :
    (g : List Message → Text) (chunks : List (List Message))
    → (parts : List Text) × (summaries (λ ms. some (g ms)) chunks ≡ some parts)
unfolding summaries
summaries-total g [] = ([], refl)
summaries-total g (chunk ∷ chunks) =
    let (parts, e) = summaries-total g chunks in
    (g chunk ∷ parts, ap (λ o. o >>= λ rest. some (g chunk ∷ rest)) e)

final_pass-total :
    (margin : ℤ → ℤ) (target : ℤ) (g : List Message → Text) (merged : Text)
    → (s : Text) × (final_pass margin target (λ ms. some (g ms)) merged ≡ some s)
unfolding final_pass
final_pass-total margin target g merged =
    elim (Bool-cases (ltb_ℤ (pos 0) target && ltb_ℤ (margin target) (pos (length merged / 4)))) [
      | inl long ↦ (g (text_message (codes "system") merged ∷ []), ground (arith, long))
      | inr short ↦ (merged, ground (arith, short))
    ]

in_stages-one :
    (margin : ℤ → ℤ) (o : CompactionOptions) (g : List Message → Text) (messages : List Message)
    → (s : Text) × (in_stages margin o (λ ms. some (g ms)) messages
        ≡ some (text_message (codes "system") s ∷ []))
unfolding in_stages
in_stages-one margin o g messages =
    let chunks = chunk_by_max_tokens messages o.max_chunk_tokens in
    let (parts, e) = summaries-total g chunks in
    let (merged, f) =
      final_pass-total margin o.target_tokens g (merge_from (length chunks) 0 [] parts) in
    let stages = codes ", " ++ (to_string_ℕ (length chunks) ++ codes " stages") in
    (
      compacted_text (length messages) (estimate_all messages) stages merged,
      ap
            (λ x. x >>= λ ps.
              final_pass margin o.target_tokens (λ ms. some (g ms))
                (merge_from (length chunks) 0 [] ps)
              >>= λ t. some (compacted (length messages) (estimate_all messages) stages t))
            e
          ∙ ap (λ x. x >>= λ t. some (compacted (length messages) (estimate_all messages) stages t))
              f,
    )

-- Whatever the messages and the settings are, a compaction whose summaries do not throw returns
-- exactly one message, of the system.
pub compact_multi_stage-one :
    (margin : ℤ → ℤ) (o : CompactionOptions) (g : List Message → Text) (messages : List Message)
    → (s : Text) × (compact_multi_stage margin o (some (λ ms. some (g ms))) messages
        ≡ some (text_message (codes "system") s ∷ []))
unfolding compact_multi_stage
compact_multi_stage-one margin o g messages = elim (Bool-cases (is_single_pass o messages)) [
  | inl single ↦ (
    compacted_text (length messages) (estimate_all messages) [] (g messages),
    ground (arith, single),
  )
  | inr many ↦ let (s, one) = in_stages-one margin o g messages in (s, ground (arith, many, one))
]

summaries-asked :
    (limit : ℕ) (f f' : Summary) (agree : (ms : List Message) → IsWithin limit ms → f ms ≡ f' ms)
    (chunks : List (List Message))
    → All (IsWithin limit) chunks
    → summaries f chunks ≡ summaries f' chunks
unfolding summaries
summaries-asked limit f f' agree [] h = refl
summaries-asked limit f f' agree (chunk ∷ chunks) h =
    ap (λ o. o >>= λ s. summaries f chunks >>= λ rest. some (s ∷ rest)) (agree chunk h.0)
    ∙ ap (λ o. f' chunk >>= λ s. o >>= λ rest. some (s ∷ rest))
        (summaries-asked limit f f' agree chunks h.1)

final_pass-asked :
    (limit : ℕ) (f f' : Summary) (agree : (ms : List Message) → IsWithin limit ms → f ms ≡ f' ms)
    (margin : ℤ → ℤ) (target : ℤ) (merged : Text)
    → final_pass margin target f merged ≡ final_pass margin target f' merged
unfolding final_pass
final_pass-asked limit f f' agree margin target merged =
    ap
      (λ o.
        if ltb_ℤ (pos 0) target && ltb_ℤ (margin target) (pos (length merged / 4))
        then o
        else some merged)
      (agree (text_message (codes "system") merged ∷ []) (refl, inr refl))

bind_ext :
    {A B : Type 0} (o : Option A) {g g' : A → Option B} (h : (a : A) → g a ≡ g' a)
    → (o >>= g) ≡ (o >>= g')
bind_ext none h = refl
bind_ext (some a) h = h a

-- A compaction in stages asks for summaries only of lists of messages within the limit of a chunk,
-- or of a single message: functions that agree on those give the same result.
pub in_stages-asked :
    (margin : ℤ → ℤ) (o : CompactionOptions) (n : ℕ) (f f' : Summary)
    (agree : (ms : List Message) → IsWithin (suc n) ms → f ms ≡ f' ms) (messages : List Message)
    → o.max_chunk_tokens ≡ pos (suc n)
    → in_stages margin o f messages ≡ in_stages margin o f' messages
unfolding in_stages
in_stages-asked margin o n f f' agree messages limit =
    let chunks = chunk_by_max_tokens messages o.max_chunk_tokens in
    let within : All (IsWithin (suc n)) chunks =
      subst (λ k. All (IsWithin (suc n)) (chunk_by_max_tokens messages k)) (sym limit)
        (chunk_by_max_tokens-IsWithin messages n) in
    let stages = codes ", " ++ (to_string_ℕ (length chunks) ++ codes " stages") in
    let finish : Option Text → Option (List Message) =
      λ x. x >>= λ t. some (compacted (length messages) (estimate_all messages) stages t) in
    ap
      (λ x. x >>= λ parts.
        finish (final_pass margin o.target_tokens f (merge_from (length chunks) 0 [] parts)))
      (summaries-asked (suc n) f f' agree chunks within)
    ∙ bind_ext (summaries f' chunks) (λ parts. ap finish (
        final_pass-asked (suc n) f f' agree margin o.target_tokens
          (merge_from (length chunks) 0 [] parts)))

-- A compaction with a positive limit, of at least one message, asks for a summary of lists of messages
-- within the limit or of a single message, and beside those only of the whole conversation, where that
-- has fewer messages than the settings ask for: summary functions that agree on these give the same
-- result.
pub compact_multi_stage-asked :
    (margin : ℤ → ℤ) (o : CompactionOptions) (n : ℕ) (f f' : Summary)
    (agree : (ms : List Message) → IsWithin (suc n) ms → f ms ≡ f' ms) (messages : List Message)
    (few : ltb_ℤ (pos (length messages)) o.min_messages_for_multistage ≡ true
      → f messages ≡ f' messages)
    → o.max_chunk_tokens ≡ pos (suc n)
    → is_empty messages ≡ false
    → compact_multi_stage margin o (some f) messages
      ≡ compact_multi_stage margin o (some f') messages
unfolding compact_multi_stage is_single_pass
compact_multi_stage-asked margin o n f f' agree messages few limit filled =
    let short = ltb_ℤ (pos (length messages)) o.min_messages_for_multistage in
    elim (Bool-cases short) [
      | inl small ↦ ground (arith, small, few small)
      | inr enough ↦ elim (Bool-cases (ltb_ℤ o.max_chunk_tokens (pos (estimate_all messages)))) [
        | inl long ↦
            ground (arith, enough, long, in_stages-asked margin o n f f' agree messages limit)
        | inr fits ↦
            let small : estimate_all messages ≤ suc n = ground (arith, fits, limit) in
            ground (arith, enough, fits, agree messages (filled, inl small))
      ]
    ]
