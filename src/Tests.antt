-- ===== src/Tests.antt =====
-- Runs of the model on small inputs, and its theorems at concrete arguments.
mod MemoryTests
mod SegmentTests
mod DeviceTests
mod TextTests
mod TableTests
mod FileTests
mod FatTests
mod TaskTests
mod ElfTests
mod LoadTests
mod ProcessTests
mod SpaceTests
mod CallTests
