-- ===== src/Execution.antt =====
-- core/execution.c: the handlers of the instructions, one function each, and the loops that run
-- them.
pub mod Arith
pub mod Bits
pub mod Bounds
pub mod Compare
pub mod Calls
pub mod Locals
pub mod Objects
pub mod Run
pub mod Typeof
pub mod Stack
pub mod Steps
pub mod Straight
