-- ===== src/Library.antt =====
-- backend/internal/library: from a client's placement to a path in the library tree.
pub mod Clusters
pub mod Sanitize
pub mod Calendar
pub mod Paths
pub mod Files
pub mod Install
pub mod Place
