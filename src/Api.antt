-- ===== src/Api.antt =====
-- The payloads that the panel exchanges with its backend (frontend/src/api/types). A field of type
-- `T | null` is an `Option T`, a union tagged by `kind` is a data type.
pub mod FinalMask
pub mod MaskSupport
pub mod Protocol
pub mod Transport
pub mod Security
pub mod Inbound
pub mod Outbound
pub mod Client
pub mod Settings
