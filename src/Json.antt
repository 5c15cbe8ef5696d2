-- ===== src/Json.antt =====
-- The JSON writer and reader of src/sc_json.cpp.
pub mod Decimal
pub mod Writer
pub mod Page
pub mod Shows
pub mod Value
pub mod Written
pub mod Token
pub mod Unescape
pub mod Strtoll
pub mod Reader
pub mod RoundTrip
pub mod Numbers
