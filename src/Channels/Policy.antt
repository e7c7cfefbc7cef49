-- ===== src/Channels/Policy.antt =====
-- channels/channel_policy: who may write to a channel, and which session a message belongs to.
-- A random code and the regular expressions are arguments.
pub mod Names
pub mod Keys
pub mod Pairing
pub mod Mentions
mod Tests
use qwen_claw.Base.{
  ℕ, Bool, true, false, not, ◌&&◌, ◌||◌, List, [], ◌∷◌, ◌++◌, map, Option, none, some, any_of,
  if◌then◌else◌, keep_if, ◌>>=◌,
}
use qwen_claw.Base.Int.{ℤ, pos}
use qwen_claw.Base.Text.{Text, codes, text_eq, is_empty, find_text, to_lower}
use qwen_claw.Base.Dict.{Dict, find, insert, erase}
use qwen_claw.Base.Json.{JsonObject}

pub data DmPolicy : Type 0 where
  open_dm pairing : DmPolicy

pub dm_policy_from_string : Text → DmPolicy
dm_policy_from_string s = if text_eq s (codes "pairing") then pairing else open_dm

pub dm_policy_to_string : DmPolicy → Text
dm_policy_to_string pairing = codes "pairing"
dm_policy_to_string open_dm = codes "open"

pub data DmScope : Type 0 where
  main_scope per_peer per_channel_peer per_account_channel_peer : DmScope

pub dm_scope_from_string : Text → DmScope
dm_scope_from_string s =
    if text_eq s (codes "main")
    then main_scope
    else if text_eq s (codes "per-peer")
    then per_peer
    else if text_eq s (codes "per-channel-peer")
    then per_channel_peer
    else if text_eq s (codes "per-account-channel-peer")
    then per_account_channel_peer
    else per_channel_peer

pub dm_scope_to_string : DmScope → Text
dm_scope_to_string main_scope = codes "main"
dm_scope_to_string per_peer = codes "per-peer"
dm_scope_to_string per_channel_peer = codes "per-channel-peer"
dm_scope_to_string per_account_channel_peer = codes "per-account-channel-peer"

pub data GroupActivation : Type 0 where
  mention always : GroupActivation

pub group_activation_from_string : Text → GroupActivation
group_activation_from_string s = if text_eq s (codes "always") then always else mention

pub record ChannelPolicyConfig : Type 0 where
  pub dm_policy : DmPolicy
  pub dm_scope : DmScope
  pub group_activation : GroupActivation
  pub allow_from : List Text
  pub group_chunk_size : ℤ
  pub bot_name : Text

-- The strings among the items of `allowFrom`.
pub allowed_ids : Option (List (Option Text)) → List Text
allowed_ids none = []
allowed_ids (some []) = []
allowed_ids (some (none ∷ items)) = allowed_ids (some items)
allowed_ids (some (some id ∷ items)) = id ∷ allowed_ids (some items)

-- `none` where a setting has the wrong type, which throws.
pub policy_from_json : JsonObject → Option ChannelPolicyConfig
policy_from_json j = do
  policy ← j.text_value (codes "dmPolicy") (codes "open")
  scope ← j.text_value (codes "dmScope") (codes "per-channel-peer")
  activation ← j.text_value (codes "groupActivation") (codes "mention")
  chunk ← j.int_value (codes "groupChunkSize") (pos 2000)
  bot ← j.text_value (codes "botName") []
  some record {
    dm_policy = dm_policy_from_string policy;
    dm_scope = dm_scope_from_string scope;
    group_activation = group_activation_from_string activation;
    allow_from = allowed_ids (j.items (codes "allowFrom"));
    group_chunk_size = chunk;
    bot_name = bot;
  }

-- A set of senders is a list without duplicates, the last paired in front.
pub record PairingManager : Type 0 where
  pub codes_of : Dict Text
  pub paired : Dict (List Text)

pub generate_code : Text → Text → PairingManager → PairingManager
generate_code code channel m = record m { codes_of = insert channel code m.codes_of }

abbrev pub member : Text → List Text → Bool
member s senders = any_of (text_eq s) senders

abbrev pub add_sender : Text → List Text → List Text
add_sender s senders = if member s senders then senders else s ∷ senders

-- `paired_[channel_id]`, which is empty at first.
pub senders_of : Text → PairingManager → List Text
senders_of channel m = elim (find channel m.paired) [ none ↦ [] | some senders ↦ senders ]

pub pair_sender : Text → Text → PairingManager → PairingManager
pair_sender channel sender m = record m {
  codes_of = erase channel m.codes_of;
  paired = insert channel (add_sender sender (senders_of channel m)) m.paired;
}

-- The answer, and the manager after it.
pub verify_code : Text → Text → Text → PairingManager → Bool × PairingManager
verify_code channel code sender m = elim (find channel m.codes_of) [
  | none ↦ (false, m)
  | some c ↦ if text_eq c code then (true, pair_sender channel sender m) else (false, m)
]

pub is_paired : Text → Text → PairingManager → Bool
is_paired channel sender m = elim (find channel m.paired) [
  | none ↦ false
  | some senders ↦ member sender senders
]

pub unpair : Text → Text → PairingManager → PairingManager
unpair channel sender m = elim (find channel m.paired) [
  | none ↦ m
  | some senders ↦ record m {
    paired = insert channel (keep_if (λ s. not (text_eq sender s)) senders) m.paired;
  }
]

pub resolve_session_key : DmScope → Text → Text → Text → Text → Text
resolve_session_key main_scope agent channel sender account =
    codes "agent:" ++ (agent ++ codes ":main")
resolve_session_key per_peer agent channel sender account =
    codes "agent:" ++ (agent ++ (codes ":peer:" ++ sender))
resolve_session_key per_channel_peer agent channel sender account =
    codes "agent:" ++ (agent ++ (codes ":" ++ (channel ++ (codes ":" ++ sender))))
resolve_session_key per_account_channel_peer agent channel sender account =
    codes "agent:"
    ++ (agent
        ++ (codes ":"
            ++ ((if is_empty account then codes "default" else account)
                ++ (codes ":" ++ (channel ++ (codes ":" ++ sender))))))

-- `search pattern message` is `std::regex_search` without case, `none` for an invalid pattern.
pub any_pattern : (Text → Text → Option Bool) → Text → List Text → Bool
any_pattern search message [] = false
any_pattern search message (pattern ∷ patterns) = elim (search pattern message) [
  | none ↦ any_pattern search message patterns
  | some found ↦ if found then true else any_pattern search message patterns
]

pub is_mentioned : Text → Text → Bool
is_mentioned message bot = elim (find_text (b'@' ∷ map to_lower bot) (map to_lower message)) [
  | none ↦ false
  | some i ↦ true
]

pub should_activate_group :
    (Text → Text → Option Bool) → GroupActivation → Text → Text → List Text → Bool
should_activate_group search always message bot patterns = true
should_activate_group search mention message bot patterns =
    if not (is_empty bot) && is_mentioned message bot
    then true
    else any_pattern search message patterns
