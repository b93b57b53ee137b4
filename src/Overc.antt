-- ===== src/Overc.antt =====
-- Overc/overc.py: the manager, which drives the host back end and the containers.
pub mod Object
pub mod Containers
pub mod Host
pub mod System
