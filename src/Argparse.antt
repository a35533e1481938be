-- ===== src/Argparse.antt =====
-- src/argparse.c and src/mmargparse.h: the command-line parser.
pub mod Opt
pub mod Desc
pub mod Wrap
pub mod Help
pub mod Run
pub mod Value
pub mod Find
pub mod Paths
pub mod Complete
pub mod Parse
mod Examples
