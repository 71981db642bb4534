-- ===== src/Examples/Translation.antt =====
-- The lookup of a translation at concrete texts.
use Prim.Native.String.{String}
use infinity_clicker.Base.{some, ◌≡◌, refl}
use infinity_clicker.I18n.{ru, tr, resolve, system_lang}
use infinity_clicker.I18n.Core.{app}
use infinity_clicker.I18n.Placeholders.{Keeps}
use infinity_clicker.I18n.Kept.{tr-Keeps}

tr_known : tr ru (some "Trigger: ") ≡ some "Триггер: "
unfolding tr app
tr_known = refl

resolve_by_windows : resolve 0x0419 "auto" ≡ ru
unfolding resolve system_lang
resolve_by_windows = refl

tr-Keeps_example :
    (shown : String) × (tr ru (some "Release %s to stop") ≡ some shown)
    × Keeps "Release %s to stop" shown
tr-Keeps_example = tr-Keeps ru "Release %s to stop"
