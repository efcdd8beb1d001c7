-- ===== src/Healing.antt =====
-- src/cockpit/ops/services/self_healing_service.py and src/cockpit/ops/services/incident_service.py,
-- with the tables of src/cockpit/ops/repositories/health.py.
pub mod Data
pub mod Store
pub mod Kinds
pub mod Failures
pub mod Settle
pub mod Reports
pub mod Recoveries
pub mod Operator
pub mod Calls
pub mod Runs
pub mod Sound
pub mod Attempts
pub mod Budget
pub mod Mode
pub mod Refines
pub mod Outcomes
pub mod Heals
mod Tests
