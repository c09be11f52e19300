-- ===== src/Vm.antt =====
-- src/vm: the virtual machine. Value, Store and Machine hold its state, Platform what it calls, Operators,
-- Casts and Forms the opcodes, Effects, Objects, Exec and Unwinding one instruction, and Rounds the loop of
-- `runUntilEvent`; the other files hold what is proved of them.
pub mod Value
pub mod Store
pub mod Platform
pub mod Operators
pub mod Casts
pub mod Forms
pub mod Machine
pub mod Effects
pub mod Objects
pub mod Exec
pub mod Unwinding
pub mod Rounds
pub mod Fits
pub mod Upkeep
pub mod Instructions
pub mod Soundness
pub mod Progress
pub mod Depth
pub mod Budget
pub mod Runs
pub mod Handlers
pub mod Agreement
pub mod Tests
