-- ===== src/Outbounds.antt =====
-- The outbounds (frontend/src/pages/Outbounds): the form that edits one, and share links that are pasted
-- into it.
pub mod Form
pub mod Link
pub mod Paste
mod Tests
mod FormTests
mod LinkTests
