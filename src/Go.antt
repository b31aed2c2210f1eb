-- ===== src/Go.antt =====
-- What the program uses of Go's strings, strconv and fmt packages, on byte strings.
pub mod Text
pub mod Decimal
pub mod Unicode
pub mod Map
pub mod Json
pub mod Http
pub mod Spelling
