-- ===== src/Feel.antt =====
-- The syntax check of conditions in the designer: web/src/lib/feel/parse.ts.
pub mod Syntax
pub mod Lexer
pub mod Parser
pub mod Check
pub mod LexTotal
pub mod Total
pub mod CheckTotal
pub mod Descent
pub mod Printed
pub mod RoundTrip
pub mod Grouping
pub mod Agreement
