-- ===== src/Lite.antt =====
-- Browser Lite (apps/everyday/browser-lite): the proxy's stores and the page's adapters.
pub mod Url
pub mod Ledger
pub mod Navigation
pub mod MessageGate
pub mod History
pub mod Egress
pub mod Origins
pub mod Realms
pub mod Workers
pub mod Cookies
