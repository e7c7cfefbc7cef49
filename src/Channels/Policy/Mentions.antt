-- ===== src/Channels/Policy/Mentions.antt =====
-- When a message of a group wakes the agent.
use qwen_claw.Base.{◌≡◌, refl, Bool, List, [], ◌∷◌, ◌++◌, map, Option, none, arith}
use qwen_claw.Base.Text.{Text, to_lower}
use qwen_claw.Channels.Policy.{
  GroupActivation, mention, always, any_pattern, is_mentioned, should_activate_group,
}

any_pattern-invalid :
    (search : Text → Text → Option Bool) (message bad : Text) (before after : List Text)
    → search bad message ≡ none
    → any_pattern search message (before ++ (bad ∷ after))
      ≡ any_pattern search message (before ++ after)
unfolding any_pattern
any_pattern-invalid search message bad [] after h = ground (arith, h)
any_pattern-invalid search message bad (p ∷ before) after h =
    ground (arith, any_pattern-invalid search message bad before after h)

-- A pattern that is no regular expression plays no part, wherever it stands among the patterns.
pub should_activate_group-invalid :
    (search : Text → Text → Option Bool) (mode : GroupActivation) (message bot bad : Text)
    (before after : List Text)
    → search bad message ≡ none
    → should_activate_group search mode message bot (before ++ (bad ∷ after))
      ≡ should_activate_group search mode message bot (before ++ after)
unfolding should_activate_group
should_activate_group-invalid search always message bot bad before after h = refl
should_activate_group-invalid search mention message bot bad before after h =
    ground (arith, any_pattern-invalid search message bad before after h)

to_lower_twice : (s : Text) → map to_lower (map to_lower s) ≡ map to_lower s
unfolding to_lower
to_lower_twice [] = refl
to_lower_twice (c ∷ s) = ground (arith, to_lower_twice s)

is_mentioned-lower :
    (message bot : Text) → is_mentioned (map to_lower message) bot ≡ is_mentioned message bot
unfolding is_mentioned
is_mentioned-lower message bot = rw (to_lower_twice message, is_mentioned) refl

-- Without patterns the case of the message's letters plays no part.
pub should_activate_group-lower :
    (search : Text → Text → Option Bool) (mode : GroupActivation) (message bot : Text)
    → should_activate_group search mode (map to_lower message) bot []
      ≡ should_activate_group search mode message bot []
unfolding should_activate_group any_pattern
should_activate_group-lower search always message bot = refl
should_activate_group-lower search mention message bot =
    ground (arith, is_mentioned-lower message bot)
