-- ===== src/Term.antt =====
-- The terminal application (apps/everyday/terminal).
pub mod TabSync
pub mod KbdInput
pub mod Http
pub mod Watch
pub mod Resume
