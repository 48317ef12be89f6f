-- ===== src/Controller.antt =====
-- The package controller.
pub mod Flowlet
pub mod Profile
pub mod Dag
pub mod State
pub mod Instance
pub mod Core
pub mod Attach
pub mod Schedule
pub mod Traffic
pub mod LoadBalance
pub mod Pool
pub mod Logger
pub mod Groups
pub mod Requests
pub mod Lifecycle
pub mod Metron
