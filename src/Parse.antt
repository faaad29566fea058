-- ===== src/Parse.antt =====
-- src/parse.c: from text to expressions. `Scan` has the loops that skip and delimit characters,
-- `Infix` the operators between braces, and `Reader` the recursive descent.
pub mod Expr
pub mod Scan
pub mod Infix
pub mod Reader
mod Tests
