-- ===== src/Go.antt =====
-- What the source uses of the Go language and its standard library.
pub mod Result
pub mod Text
pub mod Strconv
pub mod Base64
pub mod Url
pub mod Decimal
pub mod Hex
pub mod Md5
pub mod Sort
pub mod Returns
