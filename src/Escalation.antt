-- ===== src/Escalation.antt =====
-- src/cockpit/ops/services/escalation_service.py: the engagements that incidents have.
mod Data
mod Policy
mod Effects
mod Pages
mod Due
mod Incidents
mod Calls
mod Run
pub mod Validated
pub mod Deleted
pub mod Saving
pub mod Refused
mod Stored
mod Sound
mod SoundDue
mod SoundEnd
pub mod SoundCalls
mod Rank
mod Advance
pub mod Ticks
mod Tests
unfoldable pub use Data.*
unfoldable pub use Policy.*
unfoldable pub use Effects.*
unfoldable pub use Pages.*
unfoldable pub use Due.*
unfoldable pub use Incidents.*
unfoldable pub use Calls.*
unfoldable pub use Run.*
