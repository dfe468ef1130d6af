-- ===== src/Quadlet.antt =====
-- services/quadlet_writer.py and services/unsafe/quadlet.py: the unit files of a compartment.
pub mod IdMap
pub mod Units
pub mod Sync
