-- ===== src/ShellParser.antt =====
-- src/shell_parser.rs: the tokenizer and the recursive-descent parser of the shell.
pub mod Syntax
pub mod Tokenizer
pub mod Outcome
pub mod Parser
pub mod Canonical
pub mod Ended
pub mod Total
pub mod Print
pub mod Steps
pub mod RoundTrip
pub mod Join
mod Tests
