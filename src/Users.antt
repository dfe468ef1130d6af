-- ===== src/Users.antt =====
-- services/user_manager.py: the Linux accounts of a compartment and their subordinate id ranges.
pub mod Subids
pub mod Helpers
mod Tests
