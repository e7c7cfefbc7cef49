-- ===== src/Security/Glob/Tests.antt =====
-- The matcher's theorems at concrete patterns.
use qwen_claw.Base.{◌≡◌, refl, Bool, some, none}
use qwen_claw.Base.Text.{codes}
use qwen_claw.Security.Glob.{glob_loop, glob_fuel, glob_match}
use qwen_claw.Security.Glob.Reference.{glob_holds}
use qwen_claw.Security.Glob.Exact.{glob_match-holds}
use qwen_claw.Security.Glob.Fuel.{glob_loop-ends}

glob_match-holds_example :
    glob_match (codes "l*b?") (codes "lsabc") ≡ glob_holds (codes "l*b?") (codes "lsabc")
glob_match-holds_example =
    glob_match-holds (codes "l*b?") (codes "lsabc") (refl, (refl, (refl, (refl, (refl, tt)))))

glob_loop-ends_example :
    (b : Bool) × (glob_loop (glob_fuel (codes "a*") (codes "b")) (codes "a*") (codes "b") none
      ≡ some b)
glob_loop-ends_example = glob_loop-ends (codes "a*") (codes "b")
