-- ===== src/MyBash/Tests.antt =====
-- Concrete inputs for lab01/sistop-famaf-so25lab1g34: a parser over lists of symbols, and the
-- theorems about commands, pipelines and the parser loop where their hypotheses hold.
mod Sample
mod Commands
mod Lines
