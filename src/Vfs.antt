-- ===== src/Vfs.antt =====
-- The virtual file system of src/kernel/vfs.c: paths (Paths), the table of volumes and the handles
-- (State), files by handle and by path (Files), and mounting (Volumes). A path is the list of its
-- characters before the NUL.
pub mod Paths
pub mod Disks
pub mod State
pub mod Files
pub mod ByPath
pub mod References
pub mod Lifetime
pub mod Mounts
pub mod Reachable
pub mod Resolve
pub mod ReadBack
pub mod Volumes
pub mod Entering
pub mod Separate
pub mod Apart
pub mod Remount
pub mod Kept
pub mod Leads
pub mod Reset
pub mod Automount
pub mod Choice
pub mod Startup
pub mod Removal
pub mod Whole
pub mod Changes
mod Tests
