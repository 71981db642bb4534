-- ===== src/Examples/Targets.antt =====
-- A list of target programs with empty entries, blanks and capitals.
use infinity_clicker.Base.{◌≡◌, refl, [], ◌∷◌}
use infinity_clicker.Json.{Text, codes}
use infinity_clicker.Str.{lower}
use infinity_clicker.Trigger.Targets.{pieces, targets_of, target_of, parse_targets}

abbrev written : Text
written = codes " Javaw ;; Game.EXE, "

two_targets : parse_targets written ≡ codes "javaw.exe" ∷ codes "game.exe" ∷ []
unfolding parse_targets pieces targets_of target_of lower
two_targets = refl
