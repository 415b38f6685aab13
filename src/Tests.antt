-- ===== src/Tests.antt =====
-- Tests and concrete cases, on whole numbers as the floats.
pub mod Paper
pub mod Fills
pub mod Days
pub mod Boot
pub mod Pages
pub mod Switches
pub mod Books
pub mod Restore
pub mod Exits
pub mod Closes
pub mod Notes
