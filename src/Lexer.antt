-- ===== src/Lexer.antt =====
-- internal/lexer: the scanner, the tokens.
pub mod Token
pub mod Monad
pub mod Scanner
pub mod Tokenizer
pub mod Preprocessor
pub mod Client
