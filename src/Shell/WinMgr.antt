-- ===== src/Shell/WinMgr.antt =====
-- shell/winmgr.js: the geometry of the desktop's windows. `Geometry` has the free windows, on
-- integers; `Layouts` the snap layouts, `Tiles` the even grid and `Zones` which window stands in which
-- zone, on natural numbers, since these start from the frame's corner.
pub mod Geometry
pub mod Gaps
pub mod Layouts
pub mod Tiles
pub mod Zones
pub mod Occupancy
