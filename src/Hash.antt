-- ===== src/Hash.antt =====
-- The hash routines that the examples share, and the function summaries (stubs) that stand in for
-- them during symbolic execution.
pub mod Fnv
pub mod Crc16
pub mod Jhash
pub mod Gather
pub mod Synth
