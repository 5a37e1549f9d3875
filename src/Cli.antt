-- ===== src/Cli.antt =====
-- apps/cli/src: the command line's client.
pub mod Sessions
mod Tests
