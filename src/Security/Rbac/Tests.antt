-- ===== src/Security/Rbac/Tests.antt =====
-- The theorems on roles at concrete methods.
use qwen_claw.Base.{◌≡◌, refl, true}
use qwen_claw.Base.Text.{codes, text_eq}
use qwen_claw.Base.Dict.{find, insert}
use qwen_claw.Security.Rbac.{viewer, default_scopes, is_allowed, holds, assign, default_rules}
use qwen_claw.Security.Rbac.Access.{viewer_methods, is_allowed-viewer}

is_allowed-viewer_example :
    is_allowed (codes "config.set") (codes "viewer") (default_scopes viewer)
    ≡ holds viewer_methods (codes "config.set")
is_allowed-viewer_example = is_allowed-viewer (codes "config.set") (codes "viewer")

-- A viewer starts services and runs commands of plugins.
viewer_starts_service :
    is_allowed (codes "plugins.services") (codes "viewer") (default_scopes viewer) ≡ true
unfolding is_allowed default_scopes default_rules find insert text_eq assign
viewer_starts_service = refl

viewer_runs_command :
    is_allowed (codes "plugins.commands") (codes "viewer") (default_scopes viewer) ≡ true
unfolding is_allowed default_scopes default_rules find insert text_eq assign
viewer_runs_command = refl
