-- ===== src/Lexer/Preprocessor.antt =====
-- internal/lexer/preprocesor.go, preprocesor_directive.go and preprocesor_tokens.go.
pub mod Keywords
pub mod Valid
pub mod Directives
use wihajster.Common.{
  ℕ, zero, suc, ◌-◌, ◌&&◌, Bool, true, false, ◌==◌, leb, List, [], ◌∷◌, ◌++◌, if◌then◌else◌, Option,
  none, some,
}
use wihajster.Common.Bytes.{Bytes, codes}
use wihajster.Common.Maps.{Map, lookup, assign, bytes_key, bytes_eq}
use wihajster.Common.Outcome.{Outcome, ok, err}
use wihajster.Lexer.Token.{TokenType, Token}
use wihajster.Lexer.Monad.{LexError, Lex, pure, fail, ◌>>=◌, ◌>>◌}
use wihajster.Lexer.Scanner.{Scanner}
use wihajster.Lexer.Tokenizer.Reading.{Scanning}
use wihajster.Lexer.Tokenizer.{lex}
use wihajster.Lexer.Preprocessor.Keywords.{keyword_type}

-- `preprocesor`; the accumulator is the text of `scanning`.
pub record Preprocessor : Type 0 where
  pub scanning : Scanning
  pub ready_tokens : List Token
  pub macros : Map Bytes (List Token)
  pub last_seen_line : ℕ
  pub pp_line : ℕ
  pub line : ℕ
  pub column : ℕ

-- `newPreprocesor`. The line of a new scanner is 1.
unfoldable pub new_preprocessor : Scanner → Preprocessor
new_preprocessor s = record {
  scanning = record { scanner = s; text = [] };
  ready_tokens = [];
  macros = [];
  last_seen_line = s.line - 1;
  pp_line = 0;
  line = s.line;
  column = s.column;
}

-- `errorf`, with the position in front.
unfoldable pub fail_at : {A : Type 0} → (ℕ → ℕ → LexError) → Lex Preprocessor A
fail_at e p = (err (e p.line p.column), p)

-- `makeToken`.
unfoldable pub make_token : TokenType → Lex Preprocessor Token
make_token kind p = (
  ok (record { token_type = kind; raw = p.scanning.text; line = p.line; column = p.column }),
  record p { last_seen_line = p.scanning.scanner.line },
)

abbrev pub replace_scanning :
    {A : Type 0} → Preprocessor → Outcome LexError A × Scanning → Outcome LexError A × Preprocessor
replace_scanning p (out, scanning) = (out, record p { scanning = scanning })

-- The method `lex`: the position of the token, an empty accumulator, and `lex`.
unfoldable pub lex_token : ℕ → Lex Preprocessor TokenType
lex_token fuel p =
    replace_scanning
      (record p { line = p.scanning.scanner.line; column = p.scanning.scanner.column })
      (lex fuel (record p.scanning { text = [] }))

-- `popFromReady`.
unfoldable pub pop_from_ready : List Token → Preprocessor → Option Token × Preprocessor
pop_from_ready [] p = (none, p)
pop_from_ready (tok ∷ tokens) p = (some tok, record p { ready_tokens = tokens })

unfoldable pub accumulator_string : Lex Preprocessor Bytes
accumulator_string p = (ok p.scanning.text, p)

-- `handleDots`.
unfoldable pub handle_dots : Bytes → Lex Preprocessor Token
unfolding make_token fail_at
handle_dots text =
    if bytes_eq text (codes ".")
    then make_token TokenType.dot
    else if bytes_eq text (codes "...")
    then make_token TokenType.ellipsis
    else fail_at λ l c. LexError.wanted_dots l c text

-- `handleSubstitution`; `again` stands for the method `next`.
unfoldable pub handle_substitution : Lex Preprocessor Token → List Token → Lex Preprocessor Token
handle_substitution again [] p = again p
handle_substitution again (tok ∷ []) p = (ok tok, p)
handle_substitution again (tok ∷ next ∷ tokens) p =
    (ok tok, record p { ready_tokens = next ∷ tokens })

-- `handleKeywordOrSubsitution`.
unfoldable pub handle_identifier : Lex Preprocessor Token → Lex Preprocessor Token
unfolding make_token handle_substitution
handle_identifier again p = elim (lookup p.scanning.text p.macros) [
  | some tokens ↦ handle_substitution again tokens p
  | none ↦ make_token (keyword_type p.scanning.text) p
]

-- `setMacro`.
unfoldable pub set_macro : Bytes → List Token → Lex Preprocessor (Unit {0})
set_macro name body p = (ok tt, record p { macros = assign name body p.macros })

-- `nextPPToken`: the token, and whether it stands on the line of the directive.
unfoldable pub next_pp_token : Lex Preprocessor Token → Lex Preprocessor (Token × Bool)
next_pp_token again = do tok ← again; λ p. (ok (tok, tok.line == p.pp_line), p)

-- The loop of `handleDefineName`, with the body so far.
unfoldable pub define_body :
    ℕ → Lex Preprocessor Token → Bytes → List Token → Lex Preprocessor Token
unfolding next_pp_token set_macro
define_body zero again name body = fail LexError.out_of_fuel
define_body (suc fuel) again name body = do
  (tok, same_line) ← next_pp_token again
  if same_line
      then define_body fuel again name (body ++ (tok ∷ []))
      else (do set_macro name body; pure tok)

unfoldable pub is_identifier : TokenType → Bool
is_identifier TokenType.identifier = true
is_identifier _ = false

-- `handleDefineName`.
unfoldable pub handle_define_name : ℕ → Lex Preprocessor Token → Lex Preprocessor Token
unfolding define_body is_identifier fail_at
handle_define_name fuel again = do
  (tok, same_line) ← next_pp_token again
  if same_line && is_identifier tok.token_type
      then define_body fuel again tok.raw []
      else fail_at LexError.expected_definition_name

unfoldable pub start_directive : Lex Preprocessor (Unit {0})
start_directive p = (ok tt, record p { pp_line = p.scanning.scanner.line })

-- `handleDirective`.
unfoldable pub handle_directive : ℕ → Lex Preprocessor Token → Lex Preprocessor Token
unfolding handle_define_name start_directive
handle_directive fuel again = do
  start_directive
  (tok, same_line) ← next_pp_token again
  if same_line
      then (if is_identifier tok.token_type
          then (if bytes_eq tok.raw (codes "define")
              then handle_define_name fuel again
              else fail_at λ l c. LexError.unsupported_directive l c tok.raw)
          else fail_at LexError.expected_directive_name)
      else fail_at LexError.empty_directive

-- The directive, where no token has ended on the line of its `#`.
unfoldable pub check_directive : ℕ → Lex Preprocessor Token → Lex Preprocessor Token
unfolding handle_directive
check_directive fuel again p =
    if leb p.line p.last_seen_line
    then fail_at LexError.directive_not_on_line_start p
    else handle_directive fuel again p

-- The switch of `next`.
unfoldable pub handle_token : ℕ → Lex Preprocessor Token → TokenType → Lex Preprocessor Token
unfolding handle_identifier accumulator_string check_directive
handle_token fuel again TokenType.whitespace = again
handle_token fuel again TokenType.identifier = handle_identifier again
handle_token fuel again TokenType.dots = do text ← accumulator_string; handle_dots text
handle_token fuel again TokenType.preproc_start = check_directive fuel again
handle_token fuel again kind = make_token kind

-- `next` where no token is ready.
unfoldable pub next_scanned : ℕ → Lex Preprocessor Token → Lex Preprocessor Token
unfolding lex_token handle_token
next_scanned fuel again = do kind ← lex_token fuel; handle_token fuel again kind

abbrev pub or_scanned :
    Lex Preprocessor Token → Option Token × Preprocessor → Outcome LexError Token × Preprocessor
or_scanned scanned (some tok, p) = (ok tok, p)
or_scanned scanned (none, p) = scanned p

-- `next`.
unfoldable pub next : ℕ → Lex Preprocessor Token
unfolding pop_from_ready next_scanned
next zero p = (err LexError.out_of_fuel, p)
next (suc fuel) p = or_scanned (next_scanned fuel (next fuel)) (pop_from_ready p.ready_tokens p)
