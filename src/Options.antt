-- ===== src/Options.antt =====
-- src/main.c: the command line.
pub mod Numbers
pub mod Server
pub mod Parse
pub mod Accepted
pub mod Usable
pub mod Grammar
pub mod Sound
pub mod Complete
mod Tests
