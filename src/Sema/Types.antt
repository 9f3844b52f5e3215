-- ===== src/Sema/Types.antt =====
-- internal/sema/error.go and internal/sema/lower.go: errors, the names of types, and signatures.
use wihajster.Common.{
  ℕ, zero, suc, ◌-◌, Bool, true, false, not, ◌&&◌, List, [], ◌∷◌, ◌++◌, length, take, Option, none,
  some, if◌then◌else◌,
}
use wihajster.Common.Bytes.{Bytes, codes, has_suffix}
use wihajster.Common.Maps.{Map, bytes_eq, bytes_key, exists, assign}
use wihajster.Common.Outcome.{Outcome, ok, err, ◌>>=◌, ◌>>◌, check}
use wihajster.Lexer.Token.{Token, TokenType}
use wihajster.Parser.Ast.{TypeSpecifier, TypeName, FunctionParameter}

-- The messages, with what they name. `unsupported` is that of `unsupportedError`.
pub data Message : Type 0 where
  unsupported : Bytes → Message
  conflicting_prototype defined_twice conflicting_definition prototype_mismatch : Bytes → Message
  no_return parameter_redeclared redeclared undeclared undeclared_function : Bytes → Message
  missing_value unexpected_value condition_void : Message
  return_mismatch : Bytes → Bytes → Message
  initializer_mismatch : Bytes → Bytes → Bytes → Message
  invalid_integer invalid_character : Bytes → Message
  not_a_pointer : Bytes → Message
  void_pointer unary_void unary_pointer binary_void : Message
  assignment_mismatch : Bytes → Bytes → Message
  argument_count : Bytes → ℕ → ℕ → Message
  argument_mismatch : ℕ → Bytes → Bytes → Bytes → Message

pub record SemaError : Type 0 where
  pub line : ℕ
  pub column : ℕ
  pub message : Message

unfoldable pub new_error : Token → Message → SemaError
new_error tok m = record { line = tok.line; column = tok.column; message = m }

unfoldable pub unsupported_error : Token → Bytes → SemaError
unfolding new_error
unsupported_error tok feature = new_error tok (Message.unsupported feature)

-- `lexer.Token{}`.
abbrev pub no_token : Token
no_token = record { token_type = TokenType.nil; raw = []; line = 0; column = 0 }

pub record FunctionSignature : Type 0 where
  pub return_type : Bytes
  pub params : List Bytes

base_type : TypeSpecifier → Bytes
base_type TypeSpecifier.int = codes "i32"
base_type TypeSpecifier.char = codes "i32"
base_type TypeSpecifier.void = codes "void"

-- `base += "*"`, as often as the type has pointers.
add_stars : ℕ → Bytes → Bytes
add_stars zero base = base
add_stars (suc n) base = add_stars n (base ++ codes "*")

-- `lowerType`.
unfoldable pub lower_type : TypeName → Bytes
unfolding base_type add_stars
lower_type t = add_stars t.pointer_depth (base_type t.specifier)

abbrev pub i32 : Bytes
i32 = codes "i32"

abbrev pub void : Bytes
void = codes "void"

-- `lowerObjectType`. No type has the empty name, so its first test is left out.
unfoldable pub lower_object_type : Token → TypeName → Outcome SemaError Bytes
unfolding unsupported_error
lower_object_type tok t =
    let typ = lower_type t in
    if bytes_eq typ void then err (unsupported_error tok (codes "void objects")) else ok typ

-- The loop of `signatureForFunction`, with the names seen.
unfoldable pub signature_params :
    List FunctionParameter → Map Bytes (Unit {0}) → Outcome SemaError (List Bytes)
unfolding new_error
signature_params [] seen = ok []
signature_params (p ∷ ps) seen = do
  typ ← lower_object_type p.token p.type_name
  check (not (exists p.name seen)) (new_error p.token (Message.parameter_redeclared p.name))
  typs ← signature_params ps (assign p.name tt seen)
  ok (typ ∷ typs)

-- `signatureForFunction`.
unfoldable pub signature_for_function :
    Token → TypeName → List FunctionParameter → Outcome SemaError FunctionSignature
unfolding signature_params lower_object_type
signature_for_function tok ret params = do
  check (not (bytes_eq (lower_type ret) [])) (unsupported_error tok (codes "function return type"))
  typs ← signature_params params []
  ok (record { return_type = lower_type ret; params = typs })

unfoldable pub same_types : List Bytes → List Bytes → Bool
same_types [] [] = true
same_types (a ∷ as') (b ∷ bs) = bytes_eq a b && same_types as' bs
same_types _ _ = false

-- `sameSignature`: lists of one length that agree at every index.
unfoldable pub same_signature : FunctionSignature → FunctionSignature → Bool
unfolding same_types
same_signature a b = bytes_eq a.return_type b.return_type && same_types a.params b.params

-- `isPointerType`, `pointeeType` and `pointerTo`.
unfoldable pub is_pointer_type : Bytes → Bool
is_pointer_type typ = has_suffix typ (codes "*")

unfoldable pub pointee_type : Bytes → Option Bytes
unfolding is_pointer_type
pointee_type typ = if is_pointer_type typ then some (take (length typ - 1) typ) else none

unfoldable pub pointer_to : Bytes → Bytes
pointer_to typ = typ ++ codes "*"
