-- ===== src/Ecs.antt =====
-- libs/lib_ecs: the entity component system.
pub mod Pos
pub mod Chunks
pub mod Components
pub mod Archetypes
pub mod Manager
pub mod Systems
pub mod Registry
pub mod Timer
pub mod Queries
pub mod Examples
