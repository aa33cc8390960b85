-- ===== src/Text.antt =====
-- The functions of Go's strings, strconv and path packages that the program calls, on byte strings.
pub mod Split
pub mod Lines
pub mod Trim
pub mod Decimal
pub mod Integer
pub mod FilePath
