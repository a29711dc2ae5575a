-- ===== src/FilePaths.antt =====
-- api/src/path.rs: canonical file paths and the manager of hard links, with the calls of
-- api/src/imp/fs/ctl.rs that work on them. A Rust string is the list of its code points, so slices
-- at a slash are `take` and `drop`.
pub mod Text
pub mod Links
pub mod Resolve
pub mod Calls
pub mod Steps
mod Tests
