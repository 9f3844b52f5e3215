-- ===== src/Lexer/Preprocessor/Keywords.antt =====
-- The switch over the keywords in internal/lexer/preprocesor_tokens.go.
use wihajster.Common.{[], ◌∷◌, Option, none, some}
use wihajster.Common.Bytes.{Bytes, codes}
use wihajster.Common.Maps.{Map, lookup, bytes_key}
use wihajster.Lexer.Token.{TokenType}

abbrev pub keywords : Map Bytes TokenType
keywords =
    (codes "auto", TokenType.auto)
    ∷ (codes "break", TokenType.break)
    ∷ (codes "case", TokenType.case)
    ∷ (codes "char", TokenType.char)
    ∷ (codes "const", TokenType.const)
    ∷ (codes "continue", TokenType.continue)
    ∷ (codes "default", TokenType.default)
    ∷ (codes "do", TokenType.do_token)
    ∷ (codes "double", TokenType.double)
    ∷ (codes "else", TokenType.else_token)
    ∷ (codes "enum", TokenType.enum)
    ∷ (codes "extern", TokenType.extern)
    ∷ (codes "float", TokenType.float)
    ∷ (codes "for", TokenType.for)
    ∷ (codes "goto", TokenType.goto)
    ∷ (codes "if", TokenType.if_token)
    ∷ (codes "inline", TokenType.inline)
    ∷ (codes "int", TokenType.int)
    ∷ (codes "long", TokenType.long)
    ∷ (codes "register", TokenType.register)
    ∷ (codes "restrict", TokenType.restrict)
    ∷ (codes "return", TokenType.return)
    ∷ (codes "short", TokenType.short)
    ∷ (codes "signed", TokenType.signed)
    ∷ (codes "sizeof", TokenType.sizeof)
    ∷ (codes "static", TokenType.static)
    ∷ (codes "struct", TokenType.struct)
    ∷ (codes "switch", TokenType.switch)
    ∷ (codes "typedef", TokenType.typedef)
    ∷ (codes "union", TokenType.union)
    ∷ (codes "unsigned", TokenType.unsigned)
    ∷ (codes "void", TokenType.void)
    ∷ (codes "volatile", TokenType.volatile)
    ∷ (codes "while", TokenType.while)
    ∷ (codes "_Bool", TokenType.bool)
    ∷ (codes "_Complex", TokenType.complex)
    ∷ (codes "_Imaginary", TokenType.imaginary)
    ∷ []

abbrev pub or_identifier : Option TokenType → TokenType
or_identifier none = TokenType.identifier
or_identifier (some kind) = kind

unfoldable pub keyword_type : Bytes → TokenType
keyword_type text = or_identifier (lookup text keywords)
