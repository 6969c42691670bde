-- ===== src/Command.antt =====
-- The `duc_cmd_*` functions of lib/*.c: each formats one request and hands it to a `_duc_cmd_*`
-- function of `Request` or to `_duc_it_newv`. A `%s` argument is the bytes of a C string.
pub mod Unsigned
pub mod Album
pub mod Artist
pub mod Client
pub mod History
pub mod Player
pub mod Queue
pub mod Random
pub mod Sfilter
pub mod Sleep
pub mod Tag
pub mod Track
pub mod User
