-- ===== src/Routes.antt =====
-- script/routes.py: the routes that the library calls, read out of the syntax tree of endpoints.py.
pub mod Syntax
pub mod Walk
pub mod Reading
pub mod Found
pub mod Pieces
pub mod Templates
