-- ===== src/Auth.antt =====
-- `user_auth` of server/src/server_auth.c: the dialog that logs a client in or registers it. Each
-- function is a part of its loop, with a result that tells how the loop goes on.
pub mod Dialog
pub mod Register
pub mod Login
pub mod Turn
pub mod Outcome
