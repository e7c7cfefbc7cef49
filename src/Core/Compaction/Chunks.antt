-- ===== src/Core/Compaction/Chunks.antt =====
-- The chunks of `ChunkByMaxTokens`.
use qwen_claw.Base.{
  ℕ, suc, ◌+◌, ◌≤◌, ◌≡◌, ◌∙◌, ◌⊎◌, inl, inr, refl, sym, Bool, true, false, not, ◌&&◌, List, [], ◌∷◌,
  ◌++◌, append_assoc, append-nil, arith, length, ltb, All, Bool-cases, if◌then◌else◌,
}
use qwen_claw.Base.Int.{ℤ, pos, pos_part, ltb_ℤ}
use qwen_claw.Base.Text.{is_empty}
use qwen_claw.Core.Messages.{Message, estimate_tokens, estimate_all}
use qwen_claw.Core.Compaction.{last_chunk, chunk_loop, chunk_by_max_tokens}

abbrev pub concat : List (List Message) → List Message
concat [] = []
concat (chunk ∷ chunks) = chunk ++ concat chunks

pub concat-last_chunk : (chunk : List Message) → concat (last_chunk chunk) ≡ chunk
concat-last_chunk [] = refl
concat-last_chunk (m ∷ chunk) = append-nil (m ∷ chunk)

concat-chunk_loop :
    (limit : ℕ) (chunk : List Message) (tokens : ℕ) (messages : List Message)
    → concat (chunk_loop limit chunk tokens messages) ≡ chunk ++ messages
unfolding chunk_loop
concat-chunk_loop limit chunk tokens [] = concat-last_chunk chunk ∙ sym (append-nil chunk)
concat-chunk_loop limit chunk tokens (m ∷ messages) = ground (
  arith,
  concat-chunk_loop limit (m ∷ []) (estimate_tokens m) messages,
  concat-chunk_loop limit (chunk ++ (m ∷ [])) (tokens + estimate_tokens m) messages,
  append_assoc chunk (m ∷ []) messages,
)

-- The chunks in order are the messages, none lost, doubled or moved, whatever the limit is.
pub concat-chunk_by_max_tokens :
    (messages : List Message) (limit : ℤ) → concat (chunk_by_max_tokens messages limit) ≡ messages
unfolding chunk_by_max_tokens
concat-chunk_by_max_tokens [] limit = refl
concat-chunk_by_max_tokens (m ∷ messages) limit =
    ground
      (arith, append-nil (m ∷ messages), concat-chunk_loop (pos_part limit) [] 0 (m ∷ messages))

pub estimate_all-append :
    (xs ys : List Message) → estimate_all (xs ++ ys) ≡ estimate_all xs + estimate_all ys
unfolding estimate_all
estimate_all-append [] ys = omega arith
estimate_all-append (x ∷ xs) ys = omega (arith, estimate_all-append xs ys)

-- A chunk stays within the limit, or is a single message.
abbrev pub IsWithin : ℕ → List Message → Type 0
IsWithin limit chunk =
    (is_empty chunk ≡ false) × ((estimate_all chunk ≤ limit) ⊎ (length chunk ≡ 1))

IsWithin-longer :
    (limit : ℕ) (chunk : List Message) (m : Message)
    → (is_empty chunk ≡ true) ⊎ (estimate_all chunk + estimate_tokens m ≤ limit)
    → IsWithin limit (chunk ++ (m ∷ []))
unfolding estimate_all
IsWithin-longer limit [] m h = (refl, inr refl)
IsWithin-longer limit (x ∷ chunk) m (inl h) = absurd (ground (arith, h))
IsWithin-longer limit (x ∷ chunk) m (inr h) =
    (refl, inl (omega (arith, h, estimate_all-append (x ∷ chunk) (m ∷ []))))

IsWithin-single : (limit : ℕ) (m : Message) → IsWithin limit (m ∷ [])
IsWithin-single limit m = (refl, inr refl)

-- The chunk in hand: none yet, or one that may be closed.
abbrev IsOpen : ℕ → List Message → Type 0
IsOpen limit chunk = (is_empty chunk ≡ true) ⊎ IsWithin limit chunk

last_chunk-IsWithin :
    (limit : ℕ) (chunk : List Message)
    → IsOpen limit chunk
    → All (IsWithin limit) (last_chunk chunk)
last_chunk-IsWithin limit [] h = tt
last_chunk-IsWithin limit (m ∷ chunk) (inl h) = absurd (ground (arith, h))
last_chunk-IsWithin limit (m ∷ chunk) (inr h) = (h, tt)

closable :
    (limit : ℕ) (chunk : List Message)
    → IsOpen limit chunk
    → is_empty chunk ≡ false
    → IsWithin limit chunk
closable limit chunk (inl h) ne = absurd (ground (arith, h, ne))
closable limit chunk (inr h) ne = h

All-if :
    (limit : ℕ) (b : Bool) (xs ys : List (List Message))
    → (b ≡ true → All (IsWithin limit) xs)
    → (b ≡ false → All (IsWithin limit) ys)
    → All (IsWithin limit) (if b then xs else ys)
All-if limit true xs ys hx hy = hx refl
All-if limit false xs ys hx hy = hy refl

chunk_loop-IsWithin :
    (limit : ℕ) (chunk : List Message) (tokens : ℕ) (messages : List Message)
    → tokens ≡ estimate_all chunk
    → IsOpen limit chunk
    → All (IsWithin limit) (chunk_loop limit chunk tokens messages)
unfolding chunk_loop estimate_all
chunk_loop-IsWithin limit chunk tokens [] e h = last_chunk-IsWithin limit chunk h
chunk_loop-IsWithin limit chunk tokens (m ∷ messages) e h =
    All-if limit (not (is_empty chunk) && ltb limit (tokens + estimate_tokens m)) _ _
      (λ close. (
        closable limit chunk h (ground (arith, close)),
        chunk_loop-IsWithin limit (m ∷ []) (estimate_tokens m) messages (omega arith)
            (inr (IsWithin-single limit m)),
      ))
      (λ fits.
        chunk_loop-IsWithin limit (chunk ++ (m ∷ [])) (tokens + estimate_tokens m) messages
          (omega (arith, e, estimate_all-append chunk (m ∷ [])))
          (inr (
            IsWithin-longer limit chunk m (elim (Bool-cases (is_empty chunk)) [
              | inl none_yet ↦ inl none_yet
              | inr some_yet ↦ inr (ground (arith, e, fits, some_yet))
            ]))))

-- With a limit above 0 no chunk is empty, and each stays within the limit or is a single message.
pub chunk_by_max_tokens-IsWithin :
    (messages : List Message) (n : ℕ)
    → All (IsWithin (suc n)) (chunk_by_max_tokens messages (pos (suc n)))
unfolding chunk_by_max_tokens estimate_all
chunk_by_max_tokens-IsWithin [] n = tt
chunk_by_max_tokens-IsWithin (m ∷ messages) n =
    All-if (suc n) (not (ltb_ℤ (pos 0) (pos (suc n)))) _ _ (λ h. absurd (ground (arith, h)))
      (λ h. chunk_loop-IsWithin (suc n) [] 0 (m ∷ messages) refl (inl refl))
