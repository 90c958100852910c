-- ===== src/Cfr/Codec.antt =====
-- internal/cfr/codec.go against decode.go: what is written is read back.
pub mod Fits
pub mod Lists
pub mod Cells
pub mod Tables
pub mod States
pub mod Values
pub mod Sound
