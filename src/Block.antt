-- ===== src/Block.antt =====
-- The block device layer of src/kernel/block_device.c.
pub mod Flag
pub mod Device
pub mod Cache
pub mod Transfer
pub mod Bounds
pub mod Coherence
pub mod Claims
pub mod Fetching
pub mod Reading
pub mod Answering
pub mod Flush
pub mod Disk
mod Tests
