-- ===== src/Core/ContextEngine/Assembled.antt =====
-- What an assembled context begins and ends with.
use qwen_claw.Base.{
  ℕ, zero, suc, ◌+◌, ◌-◌, ◌≤◌, min, ◌≡◌, ◌∙◌, refl, sym, ap, ◌&&◌, List, [], ◌∷◌, ◌++◌,
  append_assoc, Option, none, some, arith, length, length-append, drop, ltb, Bool-cases, inl, inr,
  if_true, if_false, ◌>>=◌,
}
use qwen_claw.Base.Int.{ℤ, pos, negsuc, ltb_ℤ, sub_ℤ, add_ℤ}
use qwen_claw.Base.Text.{Text, codes}
use qwen_claw.Core.Messages.{Message, text_message, estimate_all}
use qwen_claw.Core.Pruner.{Rounding, prune}
use qwen_claw.Core.Pruner.Shape.{prune-shape}
use qwen_claw.Core.ContextEngine.{
  AgentConfig, default_options, min_reserve, forced_note, keep_recent_messages, auto_compacted,
  system_part, forced, guarded, assemble,
}

drop_before :
    (n : ℕ) (xs : List Message) (m : Message)
    → n ≤ length xs
    → drop n (xs ++ (m ∷ [])) ≡ drop n xs ++ (m ∷ [])
drop_before zero xs m h = refl
drop_before (suc n) [] m h = absurd (omega (arith, h))
drop_before (suc n) (x ∷ xs) m h = drop_before n xs m (omega (arith, h))

auto_compacted_total :
    (c : AgentConfig) (k : ℕ) (history : List Message)
    → c.compact_keep_recent ≡ pos k
    → (h : List Message) × (auto_compacted c history ≡ some h)
unfolding auto_compacted
auto_compacted_total c k history keep =
    elim (Bool-cases (c.auto_compact && ltb_ℤ c.compact_max_messages (pos (length history)))) [
      | inl long ↦ (keep_recent_messages k history, ground (arith, long, keep))
      | inr short ↦ (history, ground (arith, short))
    ]

-- A context that is forced down keeps its last message.
forced-ends :
    (prompt : Text) (k : ℕ) (middle : List Message) (m : Message)
    → (rest : List Message) × (forced prompt (suc k) (system_part prompt ++ (middle ++ (m ∷ [])))
        ≡ system_part prompt ++ (rest ++ (m ∷ [])))
unfolding forced
forced-ends prompt k middle m =
    let front = system_part prompt ++ middle in
    let context = system_part prompt ++ (middle ++ (m ∷ [])) in
    let whole : context ≡ front ++ (m ∷ []) =
      sym (append_assoc (system_part prompt) middle (m ∷ [])) in
    let size : length context ≡ length front + 1 = ap length whole ∙ length-append front (m ∷ []) in
    let cut = length context - min (suc k) (length context) in
    elim (Bool-cases (ltb (min (suc k) (length context)) (length context))) [
      | inr all ↦ (middle, if_false _ _ all)
      | inl fewer ↦ (
        forced_note ∷ drop cut front,
        if_true _ _ fewer
            ∙ ap (λ ms. system_part prompt ++ (forced_note ∷ ms))
                (ap (drop cut) whole ∙ drop_before cut front m (omega (arith, size))),
      )
    ]

guarded-ends :
    (c : AgentConfig) (k : ℕ) (prompt : Text) (window max_tokens : ℤ) (middle : List Message)
    (m : Message)
    → c.compact_keep_recent ≡ pos (suc k)
    → (rest : List Message) × (guarded c prompt window max_tokens
          (system_part prompt ++ (middle ++ (m ∷ [])))
        ≡ some (system_part prompt ++ (rest ++ (m ∷ []))))
unfolding guarded
guarded-ends c k prompt window max_tokens middle m keep =
    let context = system_part prompt ++ (middle ++ (m ∷ [])) in
    elim (Bool-cases
      (ltb_ℤ (sub_ℤ window min_reserve) (add_ℤ (pos (estimate_all context)) max_tokens))) [
        | inr room ↦ (middle, if_false _ _ room)
        | inl full ↦
            let (rest, e) = forced-ends prompt k middle m in
            (
              rest,
              if_true _ _ full
                  ∙ ap (λ z. elim z [ pos n ↦ some (forced prompt n context) | negsuc n ↦ none ])
                      keep
                  ∙ ap some e,
            )
      ]

-- With at least one message to keep, a context is always assembled; it begins with the system prompt,
-- if there is one, ends with the user's message, and comes with the estimate of its own tokens.
pub assemble-ends :
    (r : Rounding) (c : AgentConfig) (k : ℕ) (history : List Message) (prompt user : Text)
    (window max_tokens : ℤ)
    → c.compact_keep_recent ≡ pos (suc k)
    → (rest : List Message) × (assemble r c history prompt user window max_tokens
        ≡ some (
          system_part prompt ++ (rest ++ (text_message (codes "user") user ∷ [])),
          estimate_all (system_part prompt ++ (rest ++ (text_message (codes "user") user ∷ []))),
        ))
unfolding assemble
assemble-ends r c k history prompt user window max_tokens keep =
    let last = text_message (codes "user") user in
    let (shortened, e) = auto_compacted_total c (suc k) history keep in
    let (pruned, f, same) = prune-shape r default_options shortened (omega arith) (omega arith) in
    let (rest, g) = guarded-ends c k prompt window max_tokens pruned last keep in
    let finish : List Message → Option (List Message × ℕ) = λ p.
      guarded c prompt window max_tokens (system_part prompt ++ (p ++ (last ∷ []))) >>= λ context.
      some (context, estimate_all context) in
    (
      rest,
      ap (λ o. o >>= λ h. prune r default_options h >>= finish) e
          ∙ ap (λ o. o >>= finish) f
          ∙ ap (λ o. o >>= λ context. some (context, estimate_all context)) g,
    )
