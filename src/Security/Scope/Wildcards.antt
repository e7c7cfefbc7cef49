-- ===== src/Security/Scope/Wildcards.antt =====
-- Wildcard patterns of domains, `*.example.com`, against a target.
use qwen_claw.Base.{
  ◌+◌, ◌-◌, ◌<◌, ◌≡◌, ◌∙◌, refl, sym, ap, ◌⊎◌, inl, inr, ◌↔◌, true, false, ◌&&◌, [], ◌∷◌, ◌++◌,
  arith, length, length-append, length-take, take, drop, take-append-drop, ltb, Bool-cases,
}
use qwen_claw.Base.Text.{Text, text_eq, text_eq_iff, is_empty, to_lower}
use qwen_claw.Security.Scope.{lower, matches_pattern, matches_wildcard, is_wildcard}

drop-append : (p s : Text) → drop (length p) (p ++ s) ≡ s
drop-append [] s = refl
drop-append (c ∷ p) s = drop-append p s

-- `t` is the domain `w`, or one below it.
abbrev pub IsWithin : Text → Text → Type 0
IsWithin t w = (t ≡ w) ⊎ ((p : Text) × (is_empty p ≡ false) × (t ≡ p ++ (b'.' ∷ w)))

is_empty-length : (p : Text) → 0 < length p → is_empty p ≡ false
is_empty-length [] h = absurd (omega (arith, h))
is_empty-length (c ∷ p) h = refl

split_suffix :
    (t w : Text)
    → (ltb (length (b'.' ∷ w)) (length t)
        && text_eq (drop (length t - length (b'.' ∷ w)) t) (b'.' ∷ w))
      ≡ true
    → (p : Text) × (is_empty p ≡ false) × (t ≡ p ++ (b'.' ∷ w))
split_suffix t w h =
    let n = length t - length (b'.' ∷ w) in
    let longer : length (b'.' ∷ w) < length t = ground (arith, h) in
    let rest : drop n t ≡ b'.' ∷ w = (text_eq_iff _ _).0 (ground (arith, h)) in
    (
      take n t,
      is_empty-length (take n t) (omega (arith, length-take n t, longer)),
      sym (take-append-drop n t) ∙ ap (λ s. take n t ++ s) rest,
    )

join_suffix :
    (t w p : Text)
    → is_empty p ≡ false
    → t ≡ p ++ (b'.' ∷ w)
    → (ltb (length (b'.' ∷ w)) (length t)
        && text_eq (drop (length t - length (b'.' ∷ w)) t) (b'.' ∷ w))
      ≡ true
join_suffix t w [] h e = absurd (ground (arith, h))
join_suffix t w (c ∷ p) h e =
    let total : length t ≡ length (c ∷ p) + length (b'.' ∷ w) =
      ap length e ∙ length-append (c ∷ p) (b'.' ∷ w) in
    let left : length t - length (b'.' ∷ w) ≡ length (c ∷ p) = omega (arith, total) in
    let rest : drop (length t - length (b'.' ∷ w)) t ≡ b'.' ∷ w =
      ap (λ n. drop n t) left ∙ ap (drop (length (c ∷ p))) e ∙ drop-append (c ∷ p) (b'.' ∷ w) in
    ground (arith, total, (text_eq_iff _ _).1 rest)

matches_wildcard-IsWithin :
    (t w : Text) → (matches_wildcard t (b'*' ∷ b'.' ∷ w) ≡ true) ↔ IsWithin t w
unfolding matches_wildcard
matches_wildcard-IsWithin t w = elim (Bool-cases (text_eq t w)) [
  | inl same ↦ (λ h. inl ((text_eq_iff t w).0 same), λ within. ground (arith, same))
  | inr other ↦ (
    λ h. inr (split_suffix t w (ground (arith, h, other))),
    λ within. elim within [
      | inl same ↦ absurd (ground (arith, other, (text_eq_iff t w).1 same))
      | inr (p, ne, e) ↦ ground (arith, other, join_suffix t w p ne e)
    ],
  )
]

-- The pattern itself, as a target, is below its domain.
star-IsWithin : (t w : Text) → t ≡ b'*' ∷ b'.' ∷ w → IsWithin t w
star-IsWithin t w e = inr (b'*' ∷ [], refl, e)

matches_pattern-star :
    (t w : Text)
    → is_empty w ≡ false
    → text_eq t (b'*' ∷ b'.' ∷ lower w) ≡ false
    → matches_pattern t (b'*' ∷ b'.' ∷ w) ≡ matches_wildcard t (b'*' ∷ b'.' ∷ lower w)
unfolding matches_pattern is_wildcard to_lower
matches_pattern-star t [] h other = absurd (ground (arith, h))
matches_pattern-star t (c ∷ w) h other = ground (arith, other)

matches_pattern-same :
    (t w : Text)
    → text_eq t (b'*' ∷ b'.' ∷ lower w) ≡ true
    → matches_pattern t (b'*' ∷ b'.' ∷ w) ≡ true
unfolding matches_pattern to_lower
matches_pattern-same t w same = ground (arith, same)

-- A pattern *.w with a nonempty w covers exactly the domain w, in lower case, and what ends in a
-- dot and w with something before the dot.
pub matches_pattern-IsWithin :
    (t w : Text)
    → is_empty w ≡ false
    → (matches_pattern t (b'*' ∷ b'.' ∷ w) ≡ true) ↔ IsWithin t (lower w)
matches_pattern-IsWithin t w h = elim (Bool-cases (text_eq t (b'*' ∷ b'.' ∷ lower w))) [
  | inl same ↦ (
    λ yes. star-IsWithin t (lower w) ((text_eq_iff _ _).0 same),
    λ within. matches_pattern-same t w same,
  )
  | inr other ↦
      let rule = matches_pattern-star t w h other in
      let iff = matches_wildcard-IsWithin t (lower w) in
      (λ yes. iff.0 (sym rule ∙ yes), λ within. rule ∙ iff.1 within)
]
