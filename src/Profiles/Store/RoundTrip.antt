-- ===== src/Profiles/Store/RoundTrip.antt =====
-- What `ProfileStore::save` of src/profiles/Profile.cpp writes, `load` reads back.
use infinity_clicker.Base.{ℕ, ◌^◌, ◌<◌, ◌≤◌, ◌≡◌, refl, ap, arith, true, List, [], ◌∷◌}
use infinity_clicker.Json.{Text, NumArith, number, find_member}
use infinity_clicker.Json.RoundTrip.{parse-stringify}
use infinity_clicker.Json.RoundTrip.Exact.{nesting, nesting_items, IsExact, AreExact}
use infinity_clicker.Input.KeyChord.{Device, no_device, keyboard, mouse, KeyChord}
use infinity_clicker.Input.Action.{InputAction}
use infinity_clicker.Profiles.Chord.{IsDouble, KeepsDevice, IsStorable, natural, chord_to_json}
use infinity_clicker.Profiles.Action.{IsActionInRange, action_to_json}
use infinity_clicker.Profiles.Profile.{RateArith, Profile, to_json, IsInRange}
use infinity_clicker.Profiles.Stored.{from_json-to_json}
use infinity_clicker.Profiles.Store.{items_of, root_of, save_text, profiles_from, load_text}

-- A whole number below 2 ^ 53 prints as what reads back as it.
pub record IsPrinting (na : NumArith) : Type 0 where
  pub prints : (n : ℕ) → n < 2 ^ 53 → IsExact na (natural na n)

module _ (na : NumArith) where
  pub chord_to_json-IsExact :
      (name : KeyChord → Text) (d : Device) (c : KeyChord)
      → c.device ≡ d
      → IsPrinting na
      → KeepsDevice d c
      → c.mods < 16
      → IsExact na (chord_to_json na name c) × (nesting na (chord_to_json na name c) ≤ 1)
  unfolding chord_to_json
  chord_to_json-IsExact name mouse c e p k m =
      rw e
        ((_, (p.prints c.code (omega arith), (p.prints c.mods (omega arith), (_, _)))), omega arith)
  chord_to_json-IsExact name keyboard c e p k m = rw e (
    (
      _,
      (
        p.prints c.code (omega arith),
        (p.prints c.scan (omega arith), (_, (p.prints c.mods (omega arith), (_, _)))),
      ),
    ),
    omega arith,
  )
  chord_to_json-IsExact name no_device c e p k m =
      rw e
        ((_, (p.prints c.code (omega arith), (p.prints c.mods (omega arith), (_, _)))), omega arith)

  action_to_json-IsExact :
      (name : KeyChord → Text) (a : InputAction)
      → IsPrinting na
      → IsStorable a.chord
      → IsActionInRange a
      → IsExact na (action_to_json na name a) × (nesting na (action_to_json na name a) ≤ 2)
  unfolding action_to_json
  action_to_json-IsExact name a p c r =
      let (chord, depth) =
        chord_to_json-IsExact name a.chord.device a.chord refl p c.kept c.four_mods in
      let down = r.down_time in
      let (low, high) = r.repeat_range in
      let gap = r.gap in
      let (less, more) = r.wheel in
      (
        (
          chord,
          (
            p.prints a.down_time_us (omega arith),
            (
              p.prints a.repeat (omega arith),
              (
                p.prints a.repeat_gap_us (omega arith),
                (p.prints a.wheel_delta (omega arith), (_, _)),
              ),
            ),
          ),
        ),
        omega arith,
      )

module _ (na : NumArith) (ra : RateArith na) where
  -- A profile that its JSON holds whole.
  pub record IsKept (p : Profile na ra) : Type 0 where
    pub trigger_kept : IsStorable p.trigger
    pub chord_kept : IsStorable p.action.chord
    pub in_range : IsInRange na ra p
    pub rate_prints : IsExact na (number p.cps)

  abbrev pub AreKept : List (Profile na ra) → Type 0
  AreKept [] = Unit
  AreKept (p ∷ ps) = IsKept p × AreKept ps

  to_json-IsExact :
      (name : KeyChord → Text) (p : Profile na ra)
      → IsPrinting na
      → IsKept p
      → IsExact na (to_json na ra name p) × (nesting na (to_json na ra name p) ≤ 3)
  unfolding to_json
  to_json-IsExact name p pr k =
      let (trigger, shallow) =
        chord_to_json-IsExact na name p.trigger.device p.trigger refl pr k.trigger_kept.kept
          k.trigger_kept.four_mods in
      let (action, deep) =
        action_to_json-IsExact na name p.action pr k.chord_kept k.in_range.action_in_range in
      let (burst, burst1) = k.in_range.burst_range in
      let (fixed, fixed1) = k.in_range.fixed_range in
      let (duration, duration1) = k.in_range.duration_range in
      let (batch, batch1) = k.in_range.batch_range in
      let (inflight, inflight1) = k.in_range.inflight_range in
      (
        (
          _,
          (
            (trigger, (_, (_, _))),
            (
              action,
              (
                (
                  _,
                  (
                    pr.prints p.mode.burst_count (omega arith),
                    (
                      pr.prints p.mode.fixed_count (omega arith),
                      (pr.prints p.mode.duration_ms (omega arith), _),
                    ),
                  ),
                ),
                (
                  (
                    _,
                    (
                      k.rate_prints,
                      (
                        _,
                        (
                          pr.prints p.max_batch (omega arith),
                          (_, (pr.prints p.max_inflight (omega arith), _)),
                        ),
                      ),
                    ),
                  ),
                  ((_, (_, (_, _))), ((_, (_, _)), _)),
                ),
              ),
            ),
          ),
        ),
        omega arith,
      )

  items_of-AreExact :
      (name : KeyChord → Text) (ps : List (Profile na ra))
      → IsPrinting na
      → AreKept ps
      → AreExact na (items_of na ra name ps) × (nesting_items na (items_of na ra name ps) ≤ 4)
  items_of-AreExact name [] pr k = (_, omega arith)
  items_of-AreExact name (p ∷ ps) pr k =
      let (exact, depth) = to_json-IsExact name p pr k.0 in
      let (exacts, depths) = items_of-AreExact name ps pr k.1 in ((exact, exacts), omega arith)

  profiles_from-items_of :
      (map_vk : ℕ → ℕ) (name : KeyChord → Text) (ps : List (Profile na ra))
      → IsDouble na
      → AreKept ps
      → profiles_from na ra map_vk (items_of na ra name ps) ≡ ps
  profiles_from-items_of map_vk name [] d k = refl
  profiles_from-items_of map_vk name (p ∷ ps) d k = cc (
    from_json-to_json na ra map_vk name p d k.0.trigger_kept k.0.chord_kept k.0.in_range,
    profiles_from-items_of map_vk name ps d k.1,
  )

  -- The text that is saved for any list of profiles, however long and whatever their names, is sound
  -- and loads as that list: no field of a profile is lost or changed. The numbers of a profile must
  -- be in range, its chords such as their JSON holds, and the numbers such as print and convert
  -- without loss.
  pub load_text-save_text :
      (map_vk : ℕ → ℕ) (chord_name : KeyChord → Text) (ps : List (Profile na ra))
      → IsDouble na
      → IsPrinting na
      → AreKept ps
      → load_text na ra map_vk (save_text na ra chord_name ps) ≡ (ps, true)
  unfolding load_text save_text root_of find_member
  load_text-save_text map_vk name ps d pr k =
      let (exact, depth) = items_of-AreExact name ps pr k in
      let root = root_of na ra name ps in
      rw (parse-stringify na root true (_, (pr.prints 1 (omega arith), (exact, _))) (omega arith))
        (ap (λ l. (l, true)) (profiles_from-items_of map_vk name ps d k))
