-- ===== src/Project.antt =====
-- apps/control_plane/domain/project.py: the life of a project and its naming.
mod Defs
pub mod Naming
unfoldable pub use Defs.*
