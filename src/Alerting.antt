-- ===== src/Alerting.antt =====
-- engine/src/services/alerting.ts.
pub mod Tables
pub mod Incidents
pub mod Events
pub mod Transitions
pub mod Record
pub mod Cascade
pub mod OneOpen
pub mod Timer
pub mod Actions
pub mod TimerRun
pub mod TimerLaws
pub mod Recipients
pub mod Silence
