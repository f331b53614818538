-- ===== src/Generator.antt =====
-- src/jepsen/generator/Generator.h, Generator.cpp and GeneratorFactory.h.
pub mod Types
pub mod Copy
pub mod Op
pub mod Update
pub mod Factory
pub mod Build
pub mod Like
pub mod Frame
pub mod Fits
pub mod Serve
pub mod Choose
pub mod Ready
pub mod Confined
pub mod Sequence
pub mod Exhaustion
pub mod Timing
pub mod Best
pub mod Soonest
pub mod Steady
pub mod Parts
pub mod Returning
pub mod Totality
pub mod Leaving
pub mod Lasting
