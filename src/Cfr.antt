-- ===== src/Cfr.antt =====
-- internal/cfr: the frame records that hold a parked machine.
pub mod Wire
pub mod Form
pub mod Kinds
pub mod Encode
pub mod Decode
pub mod Codec
pub mod Intern
pub mod Image
pub mod Load
pub mod Restore
pub mod Match
