-- ===== src/Examples.antt =====
-- The theorems at concrete inputs.
mod Queue
mod Configured
mod Embedded
mod Generated
mod Worked
mod Served
mod Resources
mod Extended
