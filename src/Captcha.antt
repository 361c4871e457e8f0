-- ===== src/Captcha.antt =====
-- The captcha sessions of src/captcha/: the return address, the cookie, the token in it, the form
-- that the visitor posts, and the test whether a session is valid.
pub mod Config
pub mod Redirect
pub mod Cookie
pub mod Jwt
pub mod Form
pub mod Session
pub mod Body
