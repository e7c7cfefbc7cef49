-- ===== src/Channels/Policy/Keys.antt =====
-- Session keys as lists of parts, and when two of them agree.
use qwen_claw.Base.{
  ◌==◌, ◌≡◌, ◌∙◌, ◌↔◌, refl, sym, ap, Bool, true, ◌&&◌, List, [], ◌∷◌, ◌++◌, append_assoc, All,
  arith, if◌then◌else◌,
}
use qwen_claw.Base.Text.{Text, codes, is_empty, lacks}
use qwen_claw.Channels.Policy.{
  DmScope, main_scope, per_peer, per_channel_peer, per_account_channel_peer, resolve_session_key,
}

-- The parts with colons between them.
join : Text → List Text → Text
join p [] = p
join p (q ∷ ps) = p ++ (b':' ∷ join q ps)

-- The parts of a text at its colons.
onto_first : Text → List Text → List Text
onto_first p [] = p ∷ []
onto_first p (q ∷ qs) = (p ++ q) ∷ qs

split : Text → List Text
unfolding onto_first
split [] = [] ∷ []
split (c ∷ s) = let rest = split s in if c == b':' then [] ∷ rest else onto_first (c ∷ []) rest

IsClean : Text → Type 0
IsClean p = lacks b':' p ≡ true

split-colon : (p s : Text) → lacks b':' p ≡ true → split (p ++ (b':' ∷ s)) ≡ p ∷ split s
unfolding split onto_first
split-colon [] s h = ground arith
split-colon (c ∷ p) s h = ground (arith, h, split-colon p s)

split_last : (p : Text) → lacks b':' p ≡ true → split p ≡ p ∷ []
unfolding split onto_first
split_last [] h = refl
split_last (c ∷ p) h = ground (arith, h, split_last p)

split-join :
    (p : Text) (ps : List Text)
    → lacks b':' p ≡ true
    → All (λ q. lacks b':' q ≡ true) ps
    → split (join p ps) ≡ p ∷ ps
unfolding join
split-join p [] h hs = split_last p h
split-join p (q ∷ ps) h hs =
    split-colon p (join q ps) h ∙ ap (λ rest. p ∷ rest) (split-join q ps hs.0 hs.1)

-- What a key of a scope is to tell apart, behind the agent's id.
abbrev pub session_parts : DmScope → Text → Text → Text → List Text
session_parts main_scope channel sender account = codes "main" ∷ []
session_parts per_peer channel sender account = codes "peer" ∷ sender ∷ []
session_parts per_channel_peer channel sender account = channel ∷ sender ∷ []
session_parts per_account_channel_peer channel sender account =
    (if is_empty account then codes "default" else account) ∷ channel ∷ sender ∷ []

resolve_session_key-join :
    (scope : DmScope) (agent channel sender account : Text)
    → resolve_session_key scope agent channel sender account
      ≡ join (codes "agent") (agent ∷ session_parts scope channel sender account)
unfolding resolve_session_key join
resolve_session_key-join main_scope agent channel sender account = refl
resolve_session_key-join per_peer agent channel sender account = refl
resolve_session_key-join per_channel_peer agent channel sender account = refl
resolve_session_key-join per_account_channel_peer agent channel sender account = refl

-- The ids of a message, of which none has a colon.
abbrev pub is_clean : Text → Text → Text → Text → Bool
is_clean agent channel sender account =
    lacks b':' agent && lacks b':' channel && lacks b':' sender && lacks b':' account

session_parts-clean :
    (scope : DmScope) (agent channel sender account : Text)
    → is_clean agent channel sender account ≡ true
    → All (λ q. lacks b':' q ≡ true) (agent ∷ session_parts scope channel sender account)
session_parts-clean main_scope agent channel sender account h = ground (arith, h)
session_parts-clean per_peer agent channel sender account h = ground (arith, h)
session_parts-clean per_channel_peer agent channel sender account h = ground (arith, h)
session_parts-clean per_account_channel_peer agent channel sender [] h = ground (arith, h)
session_parts-clean per_account_channel_peer agent channel sender (c ∷ account) h =
    ground (arith, h)

split-resolve_session_key :
    (scope : DmScope) (agent channel sender account : Text)
    → is_clean agent channel sender account ≡ true
    → split (resolve_session_key scope agent channel sender account)
      ≡ codes "agent" ∷ agent ∷ session_parts scope channel sender account
split-resolve_session_key scope agent channel sender account h =
    ap split (resolve_session_key-join scope agent channel sender account)
    ∙ split-join (codes "agent") (agent ∷ session_parts scope channel sender account) refl
        (session_parts-clean scope agent channel sender account h)

-- The parts behind the word "agent".
parts_behind : List Text → List Text
parts_behind [] = []
parts_behind (p ∷ ps) = ps

-- Two messages whose ids have no colon share a session exactly when they agree on the agent and
-- on the parts that their scopes name.
pub resolve_session_key-parts :
    (scope scope' : DmScope) (agent channel sender account agent' channel' sender' account' : Text)
    → is_clean agent channel sender account ≡ true
    → is_clean agent' channel' sender' account' ≡ true
    → (resolve_session_key scope agent channel sender account
        ≡ resolve_session_key scope' agent' channel' sender' account')
      ↔ (agent ∷ session_parts scope channel sender account
          ≡ agent' ∷ session_parts scope' channel' sender' account')
unfolding parts_behind
resolve_session_key-parts scope scope' agent channel sender account agent' channel' sender' account'
      h h' =
    (
      λ e. ap parts_behind (
          sym (split-resolve_session_key scope agent channel sender account h)
          ∙ ap split e
          ∙ split-resolve_session_key scope' agent' channel' sender' account' h'),
      λ e.
          resolve_session_key-join scope agent channel sender account
          ∙ ap (join (codes "agent")) e
          ∙ sym (resolve_session_key-join scope' agent' channel' sender' account'),
    )

-- With colons in the ids two peers share a session: whatever part of the sender's id stands before
-- a colon may stand behind the channel's id instead.
pub resolve_session_key-shift :
    (agent channel x sender account : Text)
    → resolve_session_key per_channel_peer agent channel (x ++ (b':' ∷ sender)) account
      ≡ resolve_session_key per_channel_peer agent (channel ++ (b':' ∷ x)) sender account
unfolding resolve_session_key
resolve_session_key-shift agent channel x sender account =
    ap (λ s. codes "agent:" ++ (agent ++ (b':' ∷ s)))
      (sym (append_assoc channel (b':' ∷ x) (b':' ∷ sender)))
