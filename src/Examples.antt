-- ===== src/Examples.antt =====
-- The theorems at concrete inputs.
mod Host
mod Commands
mod Calls
mod Sessions
mod Network
mod Jobs
mod Messages
mod Dashboard
mod Rounds
mod Realtime
mod Pages
mod Providers
