-- ===== src/Security.antt =====
-- security/: sessions of the web interface, and where their credentials are kept.
pub mod Keyring
pub mod Session
