-- ===== src/Service.antt =====
-- apps/control_plane/service.py: the use cases of `CrewService`, over the three ports.
pub mod World
mod Agents
mod Projects
mod Budget
pub mod Steps
pub mod Leaving
pub mod Spawn
pub mod Calls
pub mod Steady
pub mod Kept
pub mod KeptCalls
pub mod Ceilings
pub mod Billing
pub mod Recording
pub mod Totals
pub mod Opening
pub mod Interleaved
unfoldable pub use World.*
unfoldable pub use Agents.*
unfoldable pub use Projects.*
unfoldable pub use Budget.*
