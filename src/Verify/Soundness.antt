-- ===== src/Verify/Soundness.antt =====
-- src/verify.rs: every step keeps what is prepared and what is on the stack derivable.
mod Steps
pub mod Preparation
pub mod Tracking
pub mod Labels
pub mod Proof
pub mod Normal
pub mod Final
pub use Steps.*
