-- ===== src/Tests.antt =====
-- Runs of the modelled code on concrete inputs, and the theorems at concrete inputs.
mod Values
mod Machine
mod Scanning
mod Parsing
mod Texts
mod Logical
mod Statements
mod Expressions
mod Heap
