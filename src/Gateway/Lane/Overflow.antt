-- ===== src/Gateway/Lane/Overflow.antt =====
-- `SessionLane::ApplyCapOverflow` against a description of each drop policy without a loop.
use mathlib.Core.List.{reverse, reverse-cons, reverse-reverse}
use qwen_claw.Base.{
  ℕ, zero, suc, ◌+◌, ◌≤◌, ◌<◌, ◌≡◌, refl, ap, ◌∙◌, sym, List, [], ◌∷◌, ◌++◌, map, append-nil,
  append_assoc, arith, length, length-append, length-reverse, ltb, Bool-cases, inl, inr, ltb→ge,
  ltb→lt,
}
use qwen_claw.Base.Int.{pos}
use qwen_claw.Base.Text.{Text}
use qwen_claw.Gateway.Lane.{
  SessionLane, QueuedCommand, DropPolicy, summarize, drop_oldest, reject, overflow_pass,
  overflow_loop, apply_cap_overflow, pop_back, back_id, merge_oldest,
}

module _ {J : Type 0} where
  abbrev pub ids_of : List (QueuedCommand J) → List Text
  ids_of = map (λ c. c.id)

  loop_over :
      (k fuel : ℕ) (p : DropPolicy) (cs : List (QueuedCommand J)) (ids : List Text)
      → suc k < length cs
      → overflow_loop (suc fuel) (pos (suc k)) p cs ids
        ≡ overflow_loop fuel (pos (suc k)) p (overflow_pass p cs).0 (ids ++ (overflow_pass p cs).1)
  unfolding overflow_loop
  loop_over k fuel p cs ids h = ground arith

  loop_fits :
      (k fuel : ℕ) (p : DropPolicy) (cs : List (QueuedCommand J)) (ids : List Text)
      → length cs ≤ suc k
      → overflow_loop fuel (pos (suc k)) p cs ids ≡ (cs, ids)
  unfolding overflow_loop
  loop_fits k zero p cs ids h = refl
  loop_fits k (suc fuel) p cs ids h = ground arith

  oldest_loop :
      (k fuel : ℕ) (old kept : List (QueuedCommand J)) (ids : List Text)
      → length kept ≡ suc k
      → length old ≤ fuel
      → overflow_loop fuel (pos (suc k)) drop_oldest (old ++ kept) ids ≡ (kept, ids ++ ids_of old)
  unfolding overflow_pass
  oldest_loop k fuel [] kept ids e h =
      rw append-nil (loop_fits k fuel drop_oldest kept ids (omega arith))
  oldest_loop k zero (c ∷ old) kept ids e h = absurd (omega arith)
  oldest_loop k (suc fuel) (c ∷ old) kept ids e h =
      loop_over k fuel drop_oldest (c ∷ old ++ kept) ids (omega (arith, length-append old kept))
      ∙ oldest_loop k fuel old kept (ids ++ c.id ∷ []) e (omega arith)
      ∙ ap (λ l. (kept, l)) (append_assoc ids (c.id ∷ []) (ids_of old))

  pop_back-append :
      (cs : List (QueuedCommand J)) (c : QueuedCommand J) → pop_back (cs ++ c ∷ []) ≡ cs
  unfolding pop_back
  pop_back-append [] c = refl
  pop_back-append (d ∷ []) c = refl
  pop_back-append (d ∷ f ∷ cs) c = ap (◌∷◌ d) (pop_back-append (f ∷ cs) c)

  back_id-append :
      (cs : List (QueuedCommand J)) (c : QueuedCommand J) → back_id (cs ++ c ∷ []) ≡ c.id ∷ []
  unfolding back_id
  back_id-append [] c = refl
  back_id-append (d ∷ []) c = refl
  back_id-append (d ∷ f ∷ cs) c = back_id-append (f ∷ cs) c

  reject_pass :
      (cs : List (QueuedCommand J)) (c : QueuedCommand J)
      → overflow_pass reject (cs ++ c ∷ []) ≡ (cs, c.id ∷ [])
  unfolding overflow_pass
  reject_pass cs c = rw (pop_back-append cs c, back_id-append cs c)

  reject_loop :
      (k fuel : ℕ) (kept new : List (QueuedCommand J)) (ids : List Text)
      → length kept ≡ suc k
      → length new ≤ fuel
      → overflow_loop fuel (pos (suc k)) reject (kept ++ reverse new) ids
        ≡ (kept, ids ++ ids_of new)
  reject_loop k fuel kept [] ids e h =
      rw (append-nil, append-nil) (loop_fits k fuel reject kept ids (omega arith))
  reject_loop k zero kept (c ∷ new) ids e h = absurd (omega arith)
  reject_loop k (suc fuel) kept (c ∷ new) ids e h =
      let split : kept ++ reverse (c ∷ new) ≡ (kept ++ reverse new) ++ c ∷ [] =
        rw reverse-cons (sym (append_assoc kept (reverse new) (c ∷ []))) in
      rw split (
        loop_over k fuel reject ((kept ++ reverse new) ++ c ∷ []) ids (
          omega
            (arith, length-append kept (reverse new), length-append (kept ++ reverse new) (c ∷ [])))
        ∙ rw reject_pass (
            reject_loop k fuel kept new (ids ++ c.id ∷ []) e (omega arith)
            ∙ ap (λ l. (kept, l)) (append_assoc ids (c.id ∷ []) (ids_of new))))

  -- The commands of a summarised lane: the first has the oldest one's identity.
  abbrev pub Summarises : QueuedCommand J → List (QueuedCommand J) → List (QueuedCommand J) → Type 0
  Summarises c kept left =
      (s : QueuedCommand J) × (left ≡ s ∷ kept) × (s.id ≡ c.id) × (s.session_key ≡ c.session_key)

  summarize_loop :
      (k fuel : ℕ) (c : QueuedCommand J) (mid kept : List (QueuedCommand J)) (ids : List Text)
      → length kept ≡ k
      → length mid ≤ fuel
      → Summarises c kept (overflow_loop fuel (pos (suc k)) summarize (c ∷ mid ++ kept) ids).0
        × ((overflow_loop fuel (pos (suc k)) summarize (c ∷ mid ++ kept) ids).1 ≡ ids ++ ids_of mid)
  unfolding overflow_pass merge_oldest
  summarize_loop k fuel c [] kept ids e h =
      rw (loop_fits k fuel summarize (c ∷ kept) ids (omega arith), append-nil)
        ((c, refl, refl, refl), refl)
  summarize_loop k zero c (d ∷ mid) kept ids e h = absurd (omega arith)
  summarize_loop k (suc fuel) c (d ∷ mid) kept ids e h =
      rw
        (loop_over k fuel summarize (c ∷ d ∷ mid ++ kept) ids
          (omega (arith, length-append mid kept)))
        (let rest =
            summarize_loop k fuel (merge_oldest c d) mid kept (ids ++ d.id ∷ []) e (omega arith) in
          (rest.0, rest.1 ∙ append_assoc ids (d.id ∷ []) (ids_of mid)))

  pass_drops :
      (p : DropPolicy) (cs : List (QueuedCommand J))
      → 1 < length cs
      → (suc (length (overflow_pass p cs).0) ≡ length cs) × (length (overflow_pass p cs).1 ≡ 1)
  unfolding overflow_pass pop_back back_id
  pass_drops p [] h = absurd (omega arith)
  pass_drops p (c ∷ []) h = absurd (omega arith)
  pass_drops summarize (c ∷ d ∷ cs) h = (refl, refl)
  pass_drops drop_oldest (c ∷ d ∷ cs) h = (refl, refl)
  pass_drops reject (c ∷ d ∷ []) h = (refl, refl)
  pass_drops reject (c ∷ d ∷ f ∷ cs) h =
      let rest = pass_drops reject (d ∷ f ∷ cs) (omega arith) in (ap suc rest.0, rest.1)

  loop_bounded :
      (k fuel : ℕ) (p : DropPolicy) (cs : List (QueuedCommand J)) (ids : List Text)
      → length cs ≤ fuel
      → (length (overflow_loop fuel (pos (suc k)) p cs ids).0 ≤ suc k)
        × (length (overflow_loop fuel (pos (suc k)) p cs ids).0
              + length (overflow_loop fuel (pos (suc k)) p cs ids).1
            ≡ length cs + length ids)
  loop_bounded k zero p cs ids h = rw (loop_fits k zero p cs ids (omega arith)) (omega arith, refl)
  loop_bounded k (suc fuel) p cs ids h = elim (Bool-cases (ltb (suc k) (length cs))) [
    | inl over ↦
        let n : suc k < length cs = ltb→lt _ _ over in
        let (shorter, one) = pass_drops p cs (omega arith) in
        let (within, total) =
          loop_bounded k fuel p (overflow_pass p cs).0 (ids ++ (overflow_pass p cs).1)
            (omega arith) in
        rw (loop_over k fuel p cs ids n)
          (within, omega (arith, length-append ids (overflow_pass p cs).1))
    | inr fits ↦ rw (loop_fits k (suc fuel) p cs ids (ltb→ge _ _ fits)) (ltb→ge _ _ fits, refl)
  ]

  -- With a positive cap and any drop policy, the loop ends with at most `cap` commands pending, and
  -- the commands left and the ids dropped are together as many as there were commands.
  pub apply_cap_overflow-bounded :
      (lane : SessionLane J) (k : ℕ)
      → lane.cap ≡ pos (suc k)
      → (length (apply_cap_overflow lane).0.pending ≤ suc k)
        × (length (apply_cap_overflow lane).0.pending + length (apply_cap_overflow lane).1
            ≡ length lane.pending)
  unfolding apply_cap_overflow
  apply_cap_overflow-bounded lane k e =
      let (within, total) =
        loop_bounded k (suc (length lane.pending)) lane.drop_policy lane.pending [] (omega arith) in
      simp e (within, omega arith)

  -- Under `drop-oldest` with a positive cap, a lane that holds `old` and behind it exactly `cap`
  -- commands keeps the latter unchanged and in order, and reports the ids of `old`, oldest first.
  pub apply_cap_overflow-drop_oldest :
      (lane : SessionLane J) (old kept : List (QueuedCommand J)) (k : ℕ)
      → lane.drop_policy ≡ drop_oldest
      → lane.cap ≡ pos (suc k)
      → lane.pending ≡ old ++ kept
      → length kept ≡ suc k
      → ((apply_cap_overflow lane).0.pending ≡ kept) × ((apply_cap_overflow lane).1 ≡ ids_of old)
  unfolding apply_cap_overflow
  apply_cap_overflow-drop_oldest lane old kept k policy cap e n =
      simp (policy, cap, e)
        (let r =
            oldest_loop k (suc (length (old ++ kept))) old kept [] n
              (omega (arith, length-append old kept)) in
          (ap (λ x. x.0) r, ap (λ x. x.1) r))

  -- Under `reject` with a positive cap, the first `cap` commands stay unchanged and in order, and the
  -- ids of those behind them are reported, newest first.
  pub apply_cap_overflow-reject :
      (lane : SessionLane J) (kept new : List (QueuedCommand J)) (k : ℕ)
      → lane.drop_policy ≡ reject
      → lane.cap ≡ pos (suc k)
      → lane.pending ≡ kept ++ new
      → length kept ≡ suc k
      → ((apply_cap_overflow lane).0.pending ≡ kept)
        × ((apply_cap_overflow lane).1 ≡ ids_of (reverse new))
  unfolding apply_cap_overflow
  apply_cap_overflow-reject lane kept new k policy cap e n =
      let back : reverse (reverse new) ≡ new = reverse-reverse new in
      let r =
        reject_loop k (suc (length (kept ++ new))) kept (reverse new) [] n
          (omega (arith, length-reverse new, length-append kept new)) in
      simp (policy, cap, e) (ap (λ x. x.0) (rw back at r), ap (λ x. x.1) (rw back at r))

  -- Under `summarize` with a positive cap, the newest `cap - 1` commands stay unchanged, the oldest one
  -- keeps its id and session in front of them with a new text, and the ids between are reported.
  pub apply_cap_overflow-summarize :
      (lane : SessionLane J) (c : QueuedCommand J) (mid kept : List (QueuedCommand J)) (k : ℕ)
      → lane.drop_policy ≡ summarize
      → lane.cap ≡ pos (suc k)
      → lane.pending ≡ c ∷ mid ++ kept
      → length kept ≡ k
      → Summarises c kept (apply_cap_overflow lane).0.pending
        × ((apply_cap_overflow lane).1 ≡ ids_of mid)
  unfolding apply_cap_overflow
  apply_cap_overflow-summarize lane c mid kept k policy cap e n =
      simp (policy, cap, e)
        (summarize_loop k (suc (length (c ∷ mid ++ kept))) c mid kept [] n
          (omega (arith, length-append mid kept)))

  -- A lane within its cap stays as it is.
  pub apply_cap_overflow-fits :
      (lane : SessionLane J) (k : ℕ)
      → lane.cap ≡ pos (suc k)
      → length lane.pending ≤ suc k
      → apply_cap_overflow lane ≡ (lane, [])
  unfolding apply_cap_overflow
  apply_cap_overflow-fits lane k e h =
      let r : overflow_loop (suc (length lane.pending)) lane.cap lane.drop_policy lane.pending []
          ≡ (lane.pending, []) =
        rw e (loop_fits k (suc (length lane.pending)) lane.drop_policy lane.pending [] h) in
      ap (λ x. (record lane { pending = x.0 }, x.1)) r
