-- ===== src/Cmd.antt =====
-- libdudlccmd, cmd/*.c: commands given as a line of text.
pub mod Idlist
pub mod Console
pub mod Format
pub mod Dump
pub mod Value
pub mod Run
pub mod Settle
pub mod Table
pub mod Line
pub mod Complete
