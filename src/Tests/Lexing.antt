-- ===== src/Tests/Lexing.antt =====
-- internal/lexer on concrete inputs.
use wihajster.Common.{List, [], ◌∷◌, ◌≡◌, refl, none, some, true, inl, arith}
use wihajster.Common.Bytes.{codes}
use wihajster.Lexer.Monad.{ReadError}
use wihajster.Lexer.Scanner.{Chunk}
use wihajster.Lexer.Scanner.{new_scanner, advance_line_column}
use wihajster.Lexer.Scanner.Position.{advance_bytes, advance_line_column-advance_bytes}
use wihajster.Lexer.Tokenizer.{alpha_digit_class, lex}
use wihajster.Lexer.Tokenizer.Reading.{Scanning, read_run}
use wihajster.Lexer.Tokenizer.Runs.{Stands, Ran, read_run-Ran}
use wihajster.Lexer.Tokenizer.Alike.{Alike, Same}
use wihajster.Lexer.Tokenizer.Alike.Spaces.{Agree}
use wihajster.Lexer.Tokenizer.Alike.Tokens.{lex-Alike}
use wihajster.Lexer.Tokenizer.Identifiers.{Identified, lex-Identified}
use wihajster.Lexer.Preprocessor.{new_preprocessor, next}
use wihajster.Lexer.Preprocessor.Valid.{Sound, GivesValid}
use wihajster.Lexer.Preprocessor.Directives.{next-Sound}
use wihajster.Lexer.Client.{new_lexer, peek_token}
use wihajster.Lexer.Client.Lookahead.{Settled, Repeats, peek_token-Repeats}

abbrev whole_chunk : List Chunk
whole_chunk = (codes "ab=1;", none) ∷ []

abbrev three_chunks : List Chunk
three_chunks = (codes "a", none) ∷ (codes "b=", none) ∷ (codes "1;", some ReadError.eof) ∷ []

abbrev over : List Chunk → Scanning
over chunks = record {
  scanner = record { chunks = chunks; ready = []; stored = none; line = 1; column = 1 };
  text = [];
}

three-Stands : Stands (codes "ab=1;") [] (1, 1) (over three_chunks)
three-Stands = record {
  at = record { clean = (tt, (tt, (refl, tt))); fits = tt; coming = refl; here = refl };
  got = refl;
}

chunks-Same : Same 5 (over whole_chunk) (over three_chunks)
chunks-Same = record {
  input = codes "ab=1;";
  text = [];
  position = (1, 1);
  few = omega arith;
  left = record {
    at = record { clean = (tt, tt); fits = tt; coming = refl; here = refl };
    got = refl;
  };
  right = three-Stands;
}

lex-Alike_example : Alike (Agree 5) (Same 5) (lex 6 (over whole_chunk)) (lex 6 (over three_chunks))
lex-Alike_example = lex-Alike 6 5 (over whole_chunk) (over three_chunks) (omega arith) chunks-Same

read_run-Ran_example :
    Ran true true alpha_digit_class
      (codes "ab=1;")
      []
      (1, 1)
      (read_run true alpha_digit_class (over three_chunks))
read_run-Ran_example =
    read_run-Ran true alpha_digit_class (codes "ab=1;") [] (1, 1) (over three_chunks) three-Stands

lex-Identified_example : Identified (codes "ab=1;") [] (1, 1) (lex 6 (over three_chunks))
lex-Identified_example =
    lex-Identified 5 b'a' (codes "b=1;") [] (1, 1) (over three_chunks) refl three-Stands

fresh : Sound (new_preprocessor (new_scanner three_chunks))
unfolding new_preprocessor
fresh = record { ready = tt; bodies = tt }

next-Sound_example : GivesValid (next 9 (new_preprocessor (new_scanner three_chunks)))
next-Sound_example = next-Sound 9 (new_preprocessor (new_scanner three_chunks)) fresh

fresh-Settled : Settled (new_lexer three_chunks)
unfolding new_lexer new_preprocessor
fresh-Settled = record { lookahead = inl refl; sound = record { ready = tt; bodies = tt } }

peek_token-Repeats_example :
    Repeats 9 (new_lexer three_chunks) (peek_token 9 (new_lexer three_chunks))
peek_token-Repeats_example = peek_token-Repeats 9 (new_lexer three_chunks) fresh-Settled

advance_line_column-advance_bytes_example :
    advance_line_column (codes "a\nbc") (4, 7) ≡ advance_bytes (codes "a\nbc") (4, 7)
advance_line_column-advance_bytes_example = advance_line_column-advance_bytes (codes "a\nbc") 4 7
