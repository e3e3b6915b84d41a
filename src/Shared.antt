-- ===== src/Shared.antt =====
-- What the applications share: shared/.
pub mod GameScore
