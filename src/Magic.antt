-- ===== src/Magic.antt =====
-- Magic-link sign-in: apps/api/src/jp_adopt_api/auth_magic.py and routers/auth_magic_link.py.
pub mod Rows
pub mod Link
pub mod Limit
pub mod Claim
pub mod Once
pub mod RoundTrip
