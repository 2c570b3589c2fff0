-- ===== src/PrefetchModule.antt =====
-- work/prefetch-module/prefetch.c: the kernel module that records which pages are used, and reads
-- them in again.
pub mod TraceBuffer
pub mod FileCache
pub mod Prefetching
pub mod Tracing
pub mod Inodes
pub mod Boot
pub mod ProcFile
pub mod PrefetchFile
mod Tests
