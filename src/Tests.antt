-- ===== src/Tests.antt =====
-- The properties at concrete inputs, and runs of the definitions.
mod Rep
mod Counters
mod Servers
mod Exchanges
mod Runs
mod Clients
mod Commands
mod Sessions
mod Networks
mod Routines
mod Proxies
mod Saves
mod Settings
