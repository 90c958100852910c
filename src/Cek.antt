-- ===== src/Cek.antt =====
-- internal/cek: the owned CEK machine. The children follow the files of the package.
pub mod Value
pub mod Env
pub mod Coerce
pub mod Ops
pub mod Props
pub mod Machine
pub mod Bind
pub mod Control
pub mod Loops
pub mod Assign
pub mod Call
pub mod Apply
pub mod Eval
pub mod Unwind
pub mod Run
pub mod Resume
pub mod Initial
pub mod Coherence
pub mod Records
pub mod Equality
pub mod Signals
pub mod Calls
pub mod Slots
pub mod Chains
pub mod Aliasing
