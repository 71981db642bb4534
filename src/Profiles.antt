-- ===== src/Profiles.antt =====
-- Profiles and settings, kept as JSON: src/profiles/Profile.cpp, with the JSON of bindings and
-- actions in src/input/KeyChord.cpp and src/input/InputAction.cpp.
pub mod Chord
pub mod Action
pub mod Keys
pub mod Profile
pub mod Stored
pub mod Settings
pub mod Store
