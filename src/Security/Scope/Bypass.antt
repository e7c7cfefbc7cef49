-- ===== src/Security/Scope/Bypass.antt =====
-- Values of which the host that is checked is not the host that is reached.
use qwen_claw.Base.{
  ℕ, suc, ◌+◌, ◌≡◌, ◌∙◌, refl, sym, ap, Bool, true, ◌&&◌, [], ◌∷◌, ◌++◌, append_assoc, none, some,
  arith, length, take, drop,
}
use qwen_claw.Base.Text.{Text, codes, find_text, find_byte, starts_with, lacks}
use qwen_claw.Security.Scope.{
  after_text, before_byte, extract_hostname, has_text, nonempty, value_targets,
}

find_text_byte : (c : ℕ) (s : Text) → find_text (c ∷ []) s ≡ find_byte c s
unfolding find_text find_byte starts_with
find_text_byte c [] = refl
find_text_byte c (x ∷ s) = ground (arith, find_text_byte c s)

find_byte-absent : (c : ℕ) (s : Text) → lacks c s ≡ true → find_byte c s ≡ none
unfolding find_byte
find_byte-absent c [] h = refl
find_byte-absent c (x ∷ s) h = ground (arith, h, find_byte-absent c s)

find_byte-first :
    (c : ℕ) (w s : Text) → lacks c w ≡ true → find_byte c (w ++ (c ∷ s)) ≡ some (length w)
unfolding find_byte
find_byte-first c [] s h = ground arith
find_byte-first c (x ∷ w) s h = ground (arith, h, find_byte-first c w s)

find_text-scheme : (s : Text) → lacks b':' s ≡ true → find_text (codes "://") s ≡ none
unfolding find_text starts_with
find_text-scheme [] h = refl
find_text-scheme (x ∷ s) h = ground (arith, h, find_text-scheme s)

lacks-append : (c : ℕ) (w s : Text) → lacks c w ≡ true → lacks c s ≡ true → lacks c (w ++ s) ≡ true
lacks-append c [] s h k = k
lacks-append c (x ∷ w) s h k = ground (arith, h, lacks-append c w s)

drop-suc : (w : Text) (c : ℕ) (s : Text) → drop (suc (length w)) (w ++ (c ∷ s)) ≡ s
drop-suc [] c s = refl
drop-suc (x ∷ w) c s = drop-suc w c s

drop_past : (w : Text) (c : ℕ) (s : Text) → drop (length w + 1) (w ++ (c ∷ s)) ≡ s
drop_past w c s =
    ap (λ n. drop n (w ++ (c ∷ s))) {x = length w + 1} {y = suc (length w)} (omega arith)
    ∙ drop-suc w c s

take_until : (w s : Text) → take (length w) (w ++ s) ≡ w
take_until [] s = refl
take_until (x ∷ w) s = ap (λ t. x ∷ t) (take_until w s)

before_byte-absent : (c : ℕ) (s : Text) → lacks c s ≡ true → before_byte c s ≡ s
unfolding before_byte
before_byte-absent c s h = ground (arith, find_byte-absent c s h)

before_byte-first : (c : ℕ) (w s : Text) → lacks c w ≡ true → before_byte c (w ++ (c ∷ s)) ≡ w
unfolding before_byte
before_byte-first c w s h = ground (arith, find_byte-first c w s h, take_until w (c ∷ s))

after_text-at : (w s : Text) → lacks b'@' w ≡ true → after_text (codes "@") (w ++ (b'@' ∷ s)) ≡ s
unfolding after_text
after_text-at w s h =
    ground
      (arith, find_text_byte b'@' (w ++ (b'@' ∷ s)), find_byte-first b'@' w s h, drop_past w b'@' s)

after_text-no_at : (s : Text) → lacks b'@' s ≡ true → after_text (codes "@") s ≡ s
unfolding after_text
after_text-no_at s h = ground (arith, find_text_byte b'@' s, find_byte-absent b'@' s h)

after_text-no_scheme : (s : Text) → lacks b':' s ≡ true → after_text (codes "://") s ≡ s
unfolding after_text
after_text-no_scheme s h = ground (arith, find_text-scheme s h)

after_text-http : (s : Text) → after_text (codes "://") (codes "http://" ++ s) ≡ s
unfolding after_text find_text starts_with
after_text-http s = refl

-- A name with none of the marks that end a host.
abbrev pub is_bare : Text → Bool
is_bare s = lacks b':' s && lacks b'/' s && lacks b'?' s

extract_hostname_bare :
    (url s : Text)
    → is_bare s ≡ true
    → after_text (codes "@") (after_text (codes "://") url) ≡ s
    → extract_hostname url ≡ s
unfolding extract_hostname
extract_hostname_bare url s bare e =
    ap (λ t. before_byte b'?' (before_byte b'/' (before_byte b':' t))) e
    ∙ ap (λ t. before_byte b'?' (before_byte b'/' t))
        (before_byte-absent b':' s (ground (arith, bare)))
    ∙ ap (before_byte b'?') (before_byte-absent b'/' s (ground (arith, bare)))
    ∙ before_byte-absent b'?' s (ground (arith, bare))

value_targets-url :
    (s : Text)
    → value_targets (codes "http://" ++ s) ≡ nonempty (extract_hostname (codes "http://" ++ s))
unfolding value_targets find_text starts_with
value_targets-url s = refl

-- The target of http://host/@allowed is `allowed`, for every host without an @: the user's part
-- is looked for in the whole value and not only before the first slash.
pub value_targets-at :
    (host allowed : Text)
    → lacks b'@' host ≡ true
    → is_bare allowed ≡ true
    → value_targets (codes "http://" ++ (host ++ (b'/' ∷ b'@' ∷ allowed))) ≡ nonempty allowed
value_targets-at host allowed h bare =
    let path = host ++ (b'/' ∷ b'@' ∷ allowed) in
    let past : after_text (codes "@") path ≡ allowed =
      ap (after_text (codes "@")) (sym (append_assoc host (b'/' ∷ []) (b'@' ∷ allowed)))
      ∙ after_text-at (host ++ (b'/' ∷ [])) allowed (lacks-append b'@' host (b'/' ∷ []) h refl) in
    value_targets-url path
    ∙ ap nonempty (
        extract_hostname_bare (codes "http://" ++ path) allowed bare
          (ap (after_text (codes "@")) (after_text-http path) ∙ past))

value_targets-slash :
    (s : Text) → has_text (codes "/") s ≡ true → value_targets s ≡ nonempty (extract_hostname s)
unfolding value_targets
value_targets-slash s h = ground (arith, h)

has_text-slash : (w s : Text) → lacks b'/' w ≡ true → has_text (codes "/") (w ++ (b'/' ∷ s)) ≡ true
has_text-slash w s h =
    ground (arith, find_text_byte b'/' (w ++ (b'/' ∷ s)), find_byte-first b'/' w s h)

-- The target of network/length is the network's address alone: the scope never sees how many
-- addresses the value stands for.
pub value_targets-range :
    (network digits : Text)
    → is_bare network ≡ true
    → lacks b'@' network ≡ true
    → lacks b':' digits ≡ true
    → lacks b'@' digits ≡ true
    → value_targets (network ++ (b'/' ∷ digits)) ≡ nonempty network
unfolding extract_hostname
value_targets-range network digits bare no_at digits_colon digits_at =
    let s = network ++ (b'/' ∷ digits) in
    let colon : lacks b':' s ≡ true =
      lacks-append b':' network (b'/' ∷ digits) (ground (arith, bare)) digits_colon in
    let at : lacks b'@' s ≡ true = lacks-append b'@' network (b'/' ∷ digits) no_at digits_at in
    value_targets-slash s (has_text-slash network digits (ground (arith, bare)))
    ∙ ap (λ t. nonempty (before_byte b'?' (before_byte b'/' (before_byte b':' t))))
        (ap (after_text (codes "@")) (after_text-no_scheme s colon) ∙ after_text-no_at s at)
    ∙ ap (λ t. nonempty (before_byte b'?' (before_byte b'/' t))) (before_byte-absent b':' s colon)
    ∙ ap (λ t. nonempty (before_byte b'?' t))
        (before_byte-first b'/' network digits (ground (arith, bare)))
    ∙ ap nonempty (before_byte-absent b'?' network (ground (arith, bare)))
