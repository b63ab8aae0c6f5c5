-- ===== src/Examples.antt =====
-- Concrete runs: the functions of the model at inputs that can be followed in the source, and each
-- theorem at an input that meets its hypotheses.
mod Toy
mod Envelopes
mod Client
mod Sync
mod Prefs
mod Calls
mod Incoming
mod Messaging
mod Voice
mod Ws
mod Session
mod Search
mod Invites
