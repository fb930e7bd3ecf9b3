-- ===== src/Auth.antt =====
-- packages/auth/src/index.ts: who a request acts for.
-- A text is the list of its UTF-16 code units, and an id is a number; a claimed id is `none` where it
-- is absent or has nothing but white space. The environment is an argument, and so is `jwtVerify` of
-- jose, which gives the payload of a token or throws.
pub mod Bearer
mod Examples
pub mod Subject
