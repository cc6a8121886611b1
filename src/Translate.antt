-- ===== src/Translate.antt =====
-- translate.go: the translation of a network device export. Texts are read from CSV and written as CSV
-- by Go's encoding/csv, which is a parameter of `translate`; the rest is over the rows.
pub mod Labels
pub mod Columns
pub mod Rows
