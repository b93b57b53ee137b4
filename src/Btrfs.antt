-- ===== src/Btrfs.antt =====
-- Overc/backends/btrfs.py
pub mod Object
pub mod Init
pub mod Cleanup
pub mod Upgrade
pub mod Rollback
pub mod FactoryReset
pub mod Parts
pub mod Safety
pub mod Refusal
pub mod Activation
pub mod Atomic
pub mod Resetting
pub mod Progress
pub mod Ready
pub mod Disk
pub mod Machine
