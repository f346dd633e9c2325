-- ===== src/Data.antt =====
-- The dynamic values that the program handles, and its operations on strings.
pub mod Chars
pub mod Split
pub mod Json
pub mod Sets
