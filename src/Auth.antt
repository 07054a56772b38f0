-- ===== src/Auth.antt =====
-- src/auth.rs: the operator token, the public routes, and the listen address. Headers, files and the
-- environment are taken from outside, as what they hold; so is the parser of addresses.
pub mod Bytes
pub mod Operator
pub mod Guard
pub mod Ascii
mod Examples
