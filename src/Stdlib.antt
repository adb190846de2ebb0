-- ===== src/Stdlib.antt =====
-- Functions of the standard library on values: src/stdlib. A function takes its arguments as values
-- and gives a value; what it does to reference counts is left out.
pub mod Str
