-- ===== src/Lexer/Tokenizer/Alike/Integers.antt =====
-- Integer constants.
use mathlib.Core.List.{append_assoc}
use wihajster.Common.{
  ℕ, ◌<◌, ◌≤◌, Bool, true, false, not, ◌||◌, Option, none, some, [], ◌∷◌, ◌++◌, length, ◌==◌,
  if◌then◌else◌, ◌≡◌, refl, ap, sym, ◌∙◌, arith,
}
use wihajster.Common.Bytes.{Bytes}
use wihajster.Common.Outcome.{Outcome, err}
use wihajster.Lexer.Monad.{LexError, Lex, pure, after, at_end, ◌>>◌}
use wihajster.Lexer.Scanner.{Scanner, prefix_in, rest_in, is_empty}
use wihajster.Lexer.Scanner.Position.{advance_bytes, advance_bytes-append}
use wihajster.Lexer.Scanner.Portions.{Portion, nothing, whole, part, read_bytes_in_class-Portion}
use wihajster.Lexer.Tokenizer.Reading.{Scanning, replace, build, read_data, or_nothing, read_run}
use wihajster.Lexer.Tokenizer.Runs.{Stands, Ran, read_run-Ran}
use wihajster.Lexer.Tokenizer.Integers.{
  digit_class, octal_class, hex_class, is_u, is_u_or_l, or_nul, consume_last, consume_second,
  consume_suffix, end_integer, lex_decimal_integer, lex_octal, hex_without_value, read_hex,
  lex_hexadecimal, after_zero, lex_octal_or_hexadecimal,
}
use wihajster.Lexer.Tokenizer.Alike.{
  Alike, oks, errs, errs-at, Alike-after, Alike-at_end, Alike-if, OrEnd, Same, Loaded, Loaded-Same,
  Same-weaken,
}
use wihajster.Lexer.Tokenizer.Alike.Steps.{
  peek-Alike, pop-Alike, build-Alike, built-Alike, run-Alike, Ran-Alike, length-rest_in,
}

consume_last-Alike :
    (k : ℕ) (s t : Scanning)
    → Same k s t
    → Alike (λ _. Same k) (Same k) (consume_last s) (consume_last t)
unfolding consume_last
consume_last-Alike k s t m =
    Alike-after (peek-Alike k s t m)
      λ b s' t' l. Alike-if _ _ s' t' (is_u b) (built-Alike k b s' t' l) (oks (Loaded-Same l))

consume_second-Alike :
    (k : ℕ) (s t : Scanning)
    → Same k s t
    → Alike (λ _. Same k) (Same k) (consume_second s) (consume_second t)
unfolding consume_second
consume_second-Alike k s t m = Alike-after (peek-Alike k s t m) λ b s' t' l.
    Alike-if _ _ s' t' (not (is_u_or_l b)) (oks (Loaded-Same l)) (
      Alike-after (built-Alike k b s' t' l)
        λ _ s₂ t₂ m₂. Alike-if _ _ s₂ t₂ (is_u b) (oks m₂) (consume_last-Alike k s₂ t₂ m₂))

consume_suffix-Alike :
    (k : ℕ) (s t : Scanning)
    → Same k s t
    → Alike (λ _. Same k) (Same k) (consume_suffix s) (consume_suffix t)
unfolding consume_suffix
consume_suffix-Alike k s t m = Alike-after (peek-Alike k s t m) λ b s' t' l.
    Alike-if _ _ s' t' (not (is_u_or_l b)) (oks (Loaded-Same l)) (
      Alike-after (built-Alike k b s' t' l)
        λ _ s₂ t₂ m₂. Alike-if _ _ s₂ t₂ (is_u b) (oks m₂) (consume_second-Alike k s₂ t₂ m₂))

OrEnd-Same :
    {k : ℕ} (o : Option (Unit {0})) (s t : Scanning)
    → OrEnd (λ _. Same k) (Same k) o s t
    → Same k s t
OrEnd-Same none s t m = m
OrEnd-Same (some _) s t m = m

pub OrEnd-peeked :
    {k : ℕ} (o : Option ℕ) (s t : Scanning) → OrEnd (Loaded k) (Same k) o s t → Same k s t
OrEnd-peeked none s t m = m
OrEnd-peeked (some _) s t m = Loaded-Same m

end_integer-Alike :
    (k : ℕ) (s t : Scanning)
    → Same k s t
    → Alike (λ _. Same k) (Same k) (end_integer s) (end_integer t)
unfolding end_integer
end_integer-Alike k s t m =
    Alike-after (Alike-at_end (consume_suffix-Alike k s t m))
      λ o s' t' m'. oks (OrEnd-Same o s' t' m')

pub lex_decimal_integer-Alike :
    (k : ℕ) (s t : Scanning)
    → Same k s t
    → Alike (λ _. Same k) (Same k) (lex_decimal_integer s) (lex_decimal_integer t)
unfolding lex_decimal_integer
lex_decimal_integer-Alike k s t m = Alike-after (run-Alike k true digit_class s t m) λ _ s' t' m'.
    Alike-after (Alike-at_end (peek-Alike k s' t' m')) λ o s₂ t₂ m₂.
      let n = OrEnd-peeked o s₂ t₂ m₂ in
      Alike-if _ _ s₂ t₂ ((or_nul o == b'.') || (or_nul o == b'e') || (or_nul o == b'E'))
        (errs tt n) (end_integer-Alike k s₂ t₂ n)

lex_octal-Alike :
    (k : ℕ) (s t : Scanning) → Same k s t → Alike (λ _. Same k) (Same k) (lex_octal s) (lex_octal t)
unfolding lex_octal
lex_octal-Alike k s t m =
    Alike-after (run-Alike k true octal_class s t m) λ _ s' t' m'. end_integer-Alike k s' t' m'

-- What `read_hex` does: an error where no digit follows, else the run of digits.
data HexRan (input text : Bytes) (position : ℕ × ℕ)
    : Outcome LexError (Unit {0}) × Scanning → Type 0 where
  no_value :
      {s : Scanning}
      → prefix_in hex_class input ≡ []
      → Stands (rest_in hex_class input) text position s
      → HexRan input text position
          (err (LexError.hex_without_value s.scanner.line s.scanner.column), s)
  value :
      {o : Outcome LexError (Unit {0}) × Scanning}
      → 0 < length (prefix_in hex_class input)
      → Ran true true hex_class input text position o
      → HexRan input text position o

abbrev hex_step : Bytes × Bool → Lex Scanning (Unit {0})
hex_step (d, partial) = do
  if is_empty d then hex_without_value else pure tt
  build d
  if partial then read_run true hex_class else pure tt

hex_part :
    (p input text : Bytes) (position : ℕ × ℕ) (s : Scanning)
    → p ≡ prefix_in hex_class input
    → Stands (rest_in hex_class input) text (advance_bytes p position) s
    → HexRan input text position (hex_step (p, false) s)
unfolding is_empty hex_without_value
hex_part [] input text position s e st = no_value (sym e) st
hex_part (b ∷ p) input text position s e st = value (rw (sym e) (omega arith)) (record {
  result = refl;
  stands = record { at = rw (sym e) st.at; got = rw (sym e) (ap (λ l. l ++ (b ∷ p)) st.got) };
})

hex_whole :
    (d rest input text : Bytes) (position : ℕ × ℕ) (s : Scanning)
    → 0 < length d
    → prefix_in hex_class input ≡ d ++ prefix_in hex_class rest
    → rest_in hex_class input ≡ rest_in hex_class rest
    → Stands rest text (advance_bytes d position) s
    → HexRan input text position (hex_step (d, true) s)
unfolding is_empty
hex_whole [] rest input text position s l p q st = absurd (omega (arith, l))
hex_whole (b ∷ d) rest input text position s l p q st =
    let built : Stands rest (text ++ (b ∷ d)) (advance_bytes (b ∷ d) position)
        (record s { text = s.text ++ (b ∷ d) }) =
      record { at = st.at; got = ap (λ x. x ++ (b ∷ d)) st.got } in
    let ran = read_run-Ran true hex_class rest _ _ _ built in
    value (rw p (omega arith)) (record {
      result = ran.result;
      stands =
          rw
            (
              q,
              p,
              sym (append_assoc text (b ∷ d) (prefix_in hex_class rest)),
              advance_bytes-append (b ∷ d) (prefix_in hex_class rest) position,
            )
            ran.stands;
    })

Portion-HexRan :
    {out : Outcome LexError (Bytes × Bool) × Scanner} (input text : Bytes) (position : ℕ × ℕ)
    (s : Scanning)
    → s.text ≡ text
    → Portion hex_class input position out
    → HexRan input text position
        (after (after (at_end (replace s out)) (λ read. pure (or_nothing read))) hex_step)
unfolding prefix_in rest_in
Portion-HexRan input text position s e (nothing i at) =
    rw i (hex_part [] [] text position _ refl (record { at = at; got = e }))
Portion-HexRan input text position s e (whole d rest l len p q at) =
    hex_whole d rest input text position _ l p q (record { at = at; got = e })
Portion-HexRan input text position s e (part c d q at) =
    hex_part _ input text position _ refl (record { at = rw q at; got = e })

HexRan-Alike :
    (k : ℕ) (input text : Bytes) (position : ℕ × ℕ) (o p : Outcome LexError (Unit {0}) × Scanning)
    → length input ≤ k
    → HexRan input text position o
    → HexRan input text position p
    → Alike (λ _. Same k) (Same k) o p
HexRan-Alike k input text position o p h (no_value {s = s} e st) (no_value {s = t} f st') =
    let m : Same k s t = record {
      input = rest_in hex_class input;
      text = text;
      position = position;
      few = omega (arith, h, length-rest_in hex_class input);
      left = st;
      right = st';
    } in
    errs-at LexError.hex_without_value s.scanner.line s.scanner.column t.scanner.line
      t.scanner.column s t (st.at.here ∙ sym st'.at.here) tt m
HexRan-Alike k input text position o p h (no_value e st) (value l r) =
    let n : length (prefix_in hex_class input) ≡ 0 = ap length e in absurd (omega (arith, l, n))
HexRan-Alike k input text position o p h (value l r) (no_value e st) =
    let n : length (prefix_in hex_class input) ≡ 0 = ap length e in absurd (omega (arith, l, n))
HexRan-Alike k input text position o p h (value l r) (value l' r') =
    Ran-Alike k true true hex_class input text position o p h r r'

read_hex-HexRan :
    (input text : Bytes) (position : ℕ × ℕ) (s : Scanning)
    → Stands input text position s
    → HexRan input text position (read_hex s)
unfolding read_hex read_data
read_hex-HexRan input text position s st =
    Portion-HexRan input text position s st.got
      (read_bytes_in_class-Portion hex_class s.scanner input position st.at)

lex_hexadecimal-Alike :
    (k : ℕ) (s t : Scanning)
    → Same k s t
    → Alike (λ _. Same k) (Same k) (lex_hexadecimal s) (lex_hexadecimal t)
unfolding lex_hexadecimal
lex_hexadecimal-Alike k s t m =
    Alike-after
      (HexRan-Alike k m.input m.text m.position (read_hex s) (read_hex t) m.few
        (read_hex-HexRan m.input m.text m.position s m.left)
        (read_hex-HexRan m.input m.text m.position t m.right))
      λ _ s' t' m'. Alike-after (Alike-at_end (peek-Alike k s' t' m')) λ o s₂ t₂ m₂.
        let n = OrEnd-peeked o s₂ t₂ m₂ in
        Alike-if _ _ s₂ t₂ ((or_nul o == b'.') || (or_nul o == b'p') || (or_nul o == b'P'))
          (errs tt n) (end_integer-Alike k s₂ t₂ n)

after_zero-Alike :
    (k : ℕ) (o : Option ℕ) (s t : Scanning)
    → OrEnd (Loaded k) (Same k) o s t
    → Alike (λ _. Same k) (Same k) (after_zero o s) (after_zero o t)
unfolding after_zero
after_zero-Alike k none s t m = oks m
after_zero-Alike k (some b) s t l =
    Alike-if _ _ s t ((b == b'x') || (b == b'X'))
      (Alike-after (built-Alike k b s t l) λ _ s' t' m'. lex_hexadecimal-Alike k s' t' m')
      (lex_octal-Alike k s t (Loaded-Same l))

pub lex_octal_or_hexadecimal-Alike :
    (k b : ℕ) (s t : Scanning)
    → Loaded k b s t
    → Alike (λ _. Same k) (Same k) (lex_octal_or_hexadecimal s) (lex_octal_or_hexadecimal t)
unfolding lex_octal_or_hexadecimal
lex_octal_or_hexadecimal-Alike k b s t l = Alike-after (pop-Alike k b s t l) λ _ s' t' m'.
    Alike-after (build-Alike k (b'0' ∷ []) s' t' (Same-weaken (omega arith) m')) λ _ s₂ t₂ m₂.
      Alike-after (Alike-at_end (peek-Alike k s₂ t₂ m₂)) λ o s₃ t₃ m₃. after_zero-Alike k o s₃ t₃ m₃
