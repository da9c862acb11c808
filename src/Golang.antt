-- ===== src/Golang.antt =====
-- What the program uses of Go's standard library: `strings`, `strconv`, `time`, `encoding`.
pub mod Decimal
pub mod Strings
pub mod BigEndian
pub mod Base64
pub mod Hex
pub mod Time
pub mod Netip
