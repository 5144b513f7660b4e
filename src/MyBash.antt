-- ===== src/MyBash.antt =====
-- lab01: the shell `mybash`, its command types and its parser loop.
pub mod GQueue
pub mod Run
pub mod StrExtra
pub mod Scommand
pub mod Pipeline
pub mod Builtin
pub mod Parser
pub mod Parsing
pub mod Tests
