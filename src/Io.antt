-- ===== src/Io.antt =====
-- Files: kernel/src/io.
pub mod Context
pub mod Bcache
pub mod Mode
pub mod Path
pub mod Open
pub mod Devfs
pub mod Mount
