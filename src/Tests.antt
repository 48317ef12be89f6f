-- ===== src/Tests.antt =====
-- Concrete runs of the theorems.
mod Utils
mod Dags
mod Workers
mod Flows
mod Others
mod Lifecycle
