-- ===== src/Python.antt =====
-- What the program takes from Python itself: exact decimals, values of any type, and text.
pub mod Decimal
pub mod Value
pub mod Text
