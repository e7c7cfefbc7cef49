-- ===== src/Channels/Policy/Names.antt =====
-- The names of the settings.
use qwen_claw.Base.{◌≡◌, refl}
use qwen_claw.Base.Text.{text_eq}
use qwen_claw.Channels.Policy.{
  DmScope, main_scope, per_peer, per_channel_peer, per_account_channel_peer, dm_scope_from_string,
  dm_scope_to_string,
}

-- A DM scope is read back from its name.
pub dm_scope_from_string-to_string : (s : DmScope) → dm_scope_from_string (dm_scope_to_string s) ≡ s
unfolding dm_scope_from_string dm_scope_to_string text_eq
dm_scope_from_string-to_string main_scope = refl
dm_scope_from_string-to_string per_peer = refl
dm_scope_from_string-to_string per_channel_peer = refl
dm_scope_from_string-to_string per_account_channel_peer = refl
