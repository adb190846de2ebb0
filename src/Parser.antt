-- ===== src/Parser.antt =====
-- The bytecode generator of src/core/parser/impl: registers, operator and logical expressions.
pub mod Regs
pub mod Operators
pub mod Emit
pub mod Logical
pub mod Program
pub mod State
pub mod Resolve
pub mod Statements
pub mod Expressions
pub mod Declarations
