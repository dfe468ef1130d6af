-- ===== src/Bundle.antt =====
-- services/bundle_parser.py: the `.quadlets` bundles, and their export by services/quadlet_writer.py.
pub mod Sections
pub mod Units
pub mod Parse
mod Tests
