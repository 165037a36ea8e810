-- ===== src/Cli.antt =====
-- src/cli/main.cpp: the command line.
pub mod Address
pub mod Options
pub mod Files
pub mod Main
pub mod DotFiles
pub mod Resolve
pub mod Returns
