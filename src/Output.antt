-- ===== src/Output.antt =====
-- internal/output: the order of the text format, the SARIF results, and the rows of the rule list.
pub mod Ordering
pub mod Sarif
