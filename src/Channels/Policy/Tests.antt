-- ===== src/Channels/Policy/Tests.antt =====
-- The theorems on channels at concrete messages.
use qwen_claw.Base.{◌≡◌, ◌↔◌, refl, ◌||◌, List, [], ◌∷◌}
use qwen_claw.Base.Text.{codes, text_eq}
use qwen_claw.Base.Dict.{find}
use qwen_claw.Channels.Policy.{
  PairingManager, per_peer, per_channel_peer, resolve_session_key, verify_code, is_paired,
}
use qwen_claw.Channels.Policy.Keys.{session_parts, resolve_session_key-parts}
use qwen_claw.Channels.Policy.Pairing.{Call, generate, verify, is_code, is_paired-verify_code}

resolve_session_key-parts_example :
    (resolve_session_key per_peer (codes "main") (codes "telegram") (codes "7") []
      ≡ resolve_session_key per_channel_peer (codes "main") (codes "peer") (codes "7") [])
    ↔ (codes "main" ∷ session_parts per_peer (codes "telegram") (codes "7") []
        ≡ codes "main" ∷ session_parts per_channel_peer (codes "peer") (codes "7") [])
resolve_session_key-parts_example =
    resolve_session_key-parts per_peer per_channel_peer (codes "main") (codes "telegram")
      (codes "7") [] (codes "main") (codes "peer") (codes "7") [] refl refl

abbrev waiting : PairingManager
waiting = record { codes_of = (codes "irc", codes "123456") ∷ []; paired = [] }

is_paired-verify_code_example :
    is_paired
      (codes "irc")
      (codes "bob")
      (verify_code (codes "irc") (codes "123456") (codes "bob") waiting).1
    ≡ (is_paired (codes "irc") (codes "bob") waiting
        || is_code (codes "irc") (codes "123456") waiting)
unfolding text_eq find
is_paired-verify_code_example =
    is_paired-verify_code (codes "irc") (codes "123456") (codes "bob") (codes "irc") (codes "bob")
      waiting

abbrev history : List Call
history =
    verify (codes "irc") (codes "123456") (codes "bob")
    ∷ verify (codes "irc") (codes "123456") (codes "eve")
    ∷ generate (codes "irc") (codes "654321")
    ∷ []
