-- ===== src/Panel.antt =====
-- The parts that the pages share: the state of their queries, the settings, routing, DNS and
-- clients.
pub mod LoadState
pub mod Routing
pub mod Settings
pub mod SaveAll
pub mod Uuid
pub mod Clients
pub mod Userinfo
pub mod ClientGroups
pub mod RuleOrder
pub mod RuleForm
pub mod DnsServers
mod Tests
mod RuleTests
mod ClientTests
