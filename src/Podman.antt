-- ===== src/Podman.antt =====
-- podman.py and models/version_span.py: the version of Podman and what it allows.
pub mod Span
pub mod Tooltips
pub mod Features
pub mod Info
mod Tests
