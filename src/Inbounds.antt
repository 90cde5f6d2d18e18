-- ===== src/Inbounds.antt =====
-- The inbound form (frontend/src/pages/Inbounds): its flat values, its defaults, and the adapters
-- between the form and the payloads of the backend.
pub mod Form
pub mod Defaults
pub mod Values
pub mod Ranges
pub mod FinalMask
pub mod Protocol
pub mod Quic
pub mod Sniffing
pub mod Transport
pub mod Security
pub mod Adapters
pub mod Guards
mod Tests
mod LayerTests
mod GuardTests
