-- ===== src/Block.antt =====
-- linux/block: the block device, its driver, and the sizes of linux/block/__init__.py.
pub mod Sizes
pub mod Device
pub mod Driver
pub mod Lists
