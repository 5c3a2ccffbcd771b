-- ===== src/Tests.antt =====
-- Tests of the definitions on concrete inputs, and the theorems at inputs that meet their
-- hypotheses.
mod Calculations
mod Events
mod Networks
mod Accounts
mod Statuses
mod Names
mod Windows
mod Alerts
mod Ticks
mod Streams
mod Intrusions
mod Formulas
mod Logins
mod Bodies
mod Inventory
mod Requests
mod Scripts
mod Ignored
