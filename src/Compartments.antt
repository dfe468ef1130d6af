-- ===== src/Compartments.antt =====
-- services/compartment_manager.py: the parts whose logic is not a call of the host.
pub mod Patterns
pub mod Operations
pub mod Lifecycle
pub mod Connections
pub mod Resources
mod Tests
