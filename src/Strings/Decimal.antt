-- ===== src/Strings/Decimal.antt =====
-- `itoa` and `htox`: the digits that are written stand for the number.
pub mod Digits
pub mod Itoa
