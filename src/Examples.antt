-- ===== src/Examples.antt =====
-- Concrete inputs on which the code is run, and at which the theorems apply.
mod Workstations
mod Sessions
mod Terminals
mod TerminalSessions
mod Tokens
mod Tables
mod Hosts
mod Access
mod MyWorkstations
mod Workers
mod ProxySessions
mod Releases
mod Codesign
mod Browsers
