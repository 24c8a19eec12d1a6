-- ===== src/Tests.antt =====
-- The development on concrete inputs.
mod Fixtures
mod Text
mod Whole
mod Timers
mod Store
mod Lex
mod Modules
mod Publish
mod Statements
mod Listener
mod Message
mod Proxy
mod Start
