-- ===== src/Shell.antt =====
-- The desktop shell: shell/.
pub mod WinMgr
pub mod DeskState
