-- ===== src/Files.antt =====
-- api/src/file: the objects behind descriptors; and the calls of api/src/imp/fs that read, write and
-- describe them.
pub mod Stats
pub mod Objects
pub mod Sockets
pub mod Console
pub mod Input
pub mod Vectors
pub mod Describe
pub mod Open
pub mod Fresh
pub mod Prefix
pub mod Agree
mod Tests
