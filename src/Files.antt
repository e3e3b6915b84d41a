-- ===== src/Files.antt =====
-- apps/everyday/files/filesx-core.js: the pure half of the file manager. `Paths` has the paths and names,
-- `Grid` the steps of the selection, `Preview` the preview that follows its file, `Kinds` the
-- kind of a file.
pub mod Paths
pub mod Grid
pub mod Preview
pub mod Kinds
