-- ===== src/Trigger/Swallow.antt =====
-- Key events that src/trigger/TriggerEngine.cpp keeps from other programs come in pairs.
use infinity_clicker.Base.{ℕ, Bool, true, false, ◌≡◌, ◌≢◌, ◌⊎◌, ◌∙◌, ap, arith, List, [], ◌∷◌, All}
use infinity_clicker.Trigger.{TriggerConfig, TriggerState, capturing, key_matches, trigger_edge}
use infinity_clicker.Trigger.Keys.{
  KeyEvent, handle_key, capture_down, capture_up, emergency_or_trigger,
}

-- The release of a key, after its press.
abbrev pub released : KeyEvent → ℕ → KeyEvent
released e qpc = record e { down = false; qpc = qpc }

-- The state after key events, each with what `isArmed` of the sink answers.
abbrev pub handle_keys : List (KeyEvent × Bool) → TriggerState → TriggerState
handle_keys [] s = s
handle_keys ((e, armed) ∷ es) s = handle_keys es (handle_key e armed s).state

-- An event that is not the release of the key, nor of another that is the trigger.
abbrev pub IsBetween : TriggerConfig → KeyEvent → KeyEvent → Type 0
IsBetween c e d = (d.down ≡ true) ⊎ ((d.vk ≢ e.vk) × (key_matches c.trigger d.vk d.ext ≡ false))

-- The release of the key is to be swallowed.
abbrev IsOwed : KeyEvent → TriggerState → Type 0
IsOwed e s =
    (s.swallow_up e.vk ≡ true)
    ⊎ ((s.trig_down ≡ true)
        × (s.trig_suppressed ≡ true)
        × (key_matches s.cfg.trigger e.vk e.ext ≡ true)
        × (capturing s.capture_state ≡ false))

press-IsOwed :
    (e : KeyEvent) (armed : Bool) (s : TriggerState)
    → e.down ≡ true
    → (handle_key e armed s).swallow ≡ true
    → IsOwed e (handle_key e armed s).state
unfolding handle_key capture_down capture_up emergency_or_trigger trigger_edge
press-IsOwed e armed s d h = ground arith

between-IsOwed :
    (e d : KeyEvent) (armed : Bool) (s : TriggerState)
    → IsBetween s.cfg e d
    → IsOwed e s
    → IsOwed e (handle_key d armed s).state
unfolding handle_key capture_down capture_up emergency_or_trigger trigger_edge
between-IsOwed e d armed s b h = ground arith

cfg-handle_key :
    (e : KeyEvent) (armed : Bool) (s : TriggerState) → (handle_key e armed s).state.cfg ≡ s.cfg
unfolding handle_key capture_down capture_up emergency_or_trigger trigger_edge
cfg-handle_key e armed s = ground arith

release-IsOwed :
    (e : KeyEvent) (armed : Bool) (qpc : ℕ) (s : TriggerState)
    → IsOwed e s
    → (handle_key (released e qpc) armed s).swallow ≡ true
unfolding handle_key capture_down capture_up emergency_or_trigger trigger_edge
release-IsOwed e armed qpc s h = ground arith

events-IsOwed :
    (e : KeyEvent) (c : TriggerConfig) (es : List (KeyEvent × Bool)) (s : TriggerState)
    → s.cfg ≡ c
    → All (λ d. IsBetween c e d.0) es
    → IsOwed e s
    → IsOwed e (handle_keys es s)
events-IsOwed e c [] s k b h = h
events-IsOwed e c ((d, armed) ∷ es) s k b h =
    events-IsOwed e c es (handle_key d armed s).state (cfg-handle_key d armed s ∙ k) b.1 (
      between-IsOwed e d armed s (ground (arith, b, ap (λ c. key_matches c.trigger d.vk d.ext) k))
        h)

-- A key whose press was swallowed has its next release swallowed too, whatever the state was and
-- whatever key events come between, if none is the release of the trigger by another key, and if
-- neither the configuration changes nor the capture of a binding begins between: no other program
-- sees a release without the press.
pub handle_key-swallow_pair :
    (e : KeyEvent) (armed armed' : Bool) (qpc : ℕ) (s : TriggerState)
    → (es : List (KeyEvent × Bool)) → e.down ≡ true
    → (handle_key e armed s).swallow ≡ true
    → All (λ d. IsBetween s.cfg e d.0) es
    → (handle_key (released e qpc) armed' (handle_keys es (handle_key e armed s).state)).swallow
      ≡ true
handle_key-swallow_pair e armed armed' qpc s es d h b =
    let pressed = (handle_key e armed s).state in
    release-IsOwed e armed' qpc (handle_keys es pressed)
      (events-IsOwed e s.cfg es pressed (cfg-handle_key e armed s) b (press-IsOwed e armed s d h))
