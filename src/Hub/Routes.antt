-- ===== src/Hub/Routes.antt =====
-- The routes of apps/web/src/hub/routes.ts that change the hub's state. A handler that awaits
-- `impair()` is two functions, one for the code before it and one for the code after it, since other
-- requests run in between.
mod Tests
pub mod Reply
pub mod Command
pub mod Input
pub mod Link
pub mod Drive
pub mod Post
