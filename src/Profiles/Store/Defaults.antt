-- ===== src/Profiles/Store/Defaults.antt =====
-- `ProfileStore::defaults` of src/profiles/Profile.cpp: the profiles of a first start. `translate` is the
-- translation of a text, and 16, 100 and so on are converted to `double`.
use infinity_clicker.Base.{ℕ, true, false, List, [], ◌∷◌, pos}
use infinity_clicker.Json.{Text, codes, NumArith}
use infinity_clicker.Modes.{hold, toggle, burst}
use infinity_clicker.Input.KeyChord.{chord_key, chord_mouse, x1, x2}
use infinity_clicker.Trigger.{hook}
use infinity_clicker.Engine.{catch_up}
use infinity_clicker.Profiles.Keys.{eco, standard, ultra, highest, per_second}
use infinity_clicker.Profiles.Profile.{RateArith, Profile, default_action}

module _ (na : NumArith) (ra : RateArith na) where
  -- `Profile p;`
  unfoldable pub new_profile : (ℕ → ℕ) → Profile na ra
  new_profile map_vk = record {
    name = codes "Default";
    trigger = chord_key map_vk 0x75 0;
    suppress_trigger = false;
    mouse_backend = hook;
    action = default_action na ra;
    mode = record { mode = toggle; burst_count = 10; fixed_count = 100; duration_ms = 1000 };
    rate_unit = per_second;
    cps = ra.usual;
    max_mode = false;
    max_batch = 8;
    max_backpressure = true;
    max_inflight = 2000;
    precision = standard;
    priority = highest;
    late_policy = catch_up;
    filter_enabled = false;
    target_process = [];
  }

  unfoldable pub defaults : (ℕ → ℕ) → (Text → Text) → List (Profile na ra)
  defaults map_vk translate =
      let p = new_profile map_vk in
      record p {
        name = translate (codes "Default");
        trigger = chord_mouse x2 0;
        mode = record p.mode { mode = hold };
        cps = na.of_int (pos 20);
        action = record p.action { down_time_us = 10_000 };
      }
      ∷ record p {
        name = codes "Minecraft";
        trigger = chord_mouse x1 0;
        suppress_trigger = true;
        mode = record p.mode { mode = hold };
        cps = na.of_int (pos 16);
        action = record p.action { down_time_us = 12_000 };
        filter_enabled = true;
        target_process = codes "javaw.exe; java.exe";
      }
      ∷ record p {
        name = translate (codes "Browser");
        trigger = chord_key map_vk 0x77 0;
        mode = record p.mode { mode = toggle };
        cps = na.of_int (pos 10);
        action = record p.action { down_time_us = 5_000 };
        precision = eco;
      }
      ∷ record p {
        name = translate (codes "Testing");
        trigger = chord_key map_vk 0x76 0;
        mode = record p.mode { mode = burst; burst_count = 100 };
        cps = na.of_int (pos 100);
        action = record p.action { down_time_us = 0 };
      }
      ∷ record p {
        name = translate (codes "Fast");
        trigger = chord_key map_vk 0x78 0;
        mode = record p.mode { mode = toggle };
        cps = na.of_int (pos 1000);
        action = record p.action { down_time_us = 0 };
        precision = ultra;
      }
      ∷ record p {
        name = translate (codes "Custom");
        trigger = chord_key map_vk 0x79 0;
        mode = record p.mode { mode = hold };
        action = record p.action { chord = chord_key map_vk 0x45 0; down_time_us = 15_000 };
        cps = na.of_int (pos 25);
      }
      ∷ []
