-- ===== src/Patcher.antt =====
-- patch_gcc_typename.py: the workaround for GCC in two headers, and its reversal.
pub mod Text
pub mod Files
pub mod Paths
pub mod Run
pub mod Safe
pub mod Restored
