-- ===== src/Input.antt =====
-- src/input: chords, actions and their compiled programs, the sender and the shared record of held
-- keys.
pub mod Vk
pub mod KeyChord
pub mod Action
pub mod HeldState
pub mod Sender
pub mod Release
