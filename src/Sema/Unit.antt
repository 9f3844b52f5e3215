-- ===== src/Sema/Unit.antt =====
-- internal/sema/lower.go: `Lower`, which checks the signatures and lowers each function.
pub mod Modules
pub mod Accepted
use wihajster.Common.{
  Bool, true, false, not, ◌&&◌, List, [], ◌∷◌, ◌++◌, Option, none, some, if◌then◌else◌,
}
use wihajster.Common.Bytes.{Bytes, codes}
use wihajster.Common.Maps.{Map, bytes_key, lookup, assign}
use wihajster.Common.Outcome.{Outcome, ok, err, ◌>>=◌, ◌>>◌, check}
use wihajster.Parser.Ast.{FunctionDefinition, FunctionPrototype, TranslationUnit, Declaration}
use wihajster.Tac.Types.{Function, Module}
use wihajster.Sema.Types.{
  Message, SemaError, FunctionSignature, new_error, unsupported_error, signature_for_function,
  same_signature,
}
use wihajster.Sema.Lower.{lower_function}

abbrev pub Signatures : Type 0
Signatures = Map Bytes FunctionSignature

-- What the loop over the prototypes does with one that an earlier one declares.
merge_prototype :
    FunctionPrototype
    → FunctionSignature
    → Option FunctionSignature
    → Signatures
    → Outcome SemaError Signatures
merge_prototype proto sig (some prev) prototypes =
    if same_signature prev sig
    then ok prototypes
    else err (new_error proto.token (Message.conflicting_prototype proto.name))
merge_prototype proto sig none prototypes = ok (assign proto.name sig prototypes)

-- The loop over the prototypes. `definitions` is still empty in it, so its second test never fires.
unfoldable pub declare_prototypes :
    List FunctionPrototype → Signatures → Outcome SemaError Signatures
unfolding merge_prototype
declare_prototypes [] prototypes = ok prototypes
declare_prototypes (proto ∷ protos) prototypes = do
  sig ← signature_for_function proto.token proto.return_type proto.parameters
  prototypes' ← merge_prototype proto sig (lookup proto.name prototypes) prototypes
  declare_prototypes protos prototypes'

refuse_second :
    FunctionDefinition → FunctionSignature → Option FunctionSignature → Outcome SemaError (Unit {0})
refuse_second pfn sig none = ok tt
refuse_second pfn sig (some prev) = err (
    new_error pfn.token (
      if same_signature prev sig
      then Message.defined_twice pfn.name
      else Message.conflicting_definition pfn.name))

match_prototype :
    FunctionDefinition → FunctionSignature → Option FunctionSignature → Outcome SemaError (Unit {0})
match_prototype pfn sig none = ok tt
match_prototype pfn sig (some proto) =
    check (same_signature proto sig) (new_error pfn.token (Message.prototype_mismatch pfn.name))

-- The loop over the definitions' signatures.
unfoldable pub declare_definitions :
    List FunctionDefinition → Signatures → Signatures → Outcome SemaError Signatures
unfolding refuse_second match_prototype
declare_definitions [] prototypes definitions = ok definitions
declare_definitions (pfn ∷ pfns) prototypes definitions = do
  sig ← signature_for_function pfn.token pfn.return_type pfn.parameters
  refuse_second pfn sig (lookup pfn.name definitions)
  match_prototype pfn sig (lookup pfn.name prototypes)
  declare_definitions pfns prototypes (assign pfn.name sig definitions)

-- The loop that lowers the functions.
unfoldable pub lower_functions :
    List FunctionDefinition → Signatures → Outcome SemaError (List Function)
lower_functions [] functions = ok []
lower_functions (pfn ∷ pfns) functions = do
  fn ← lower_function pfn functions
  fns ← lower_functions pfns functions
  ok (fn ∷ fns)

refuse_globals : List Declaration → Outcome SemaError (Unit {0})
refuse_globals [] = ok tt
refuse_globals (decl ∷ _) = err (unsupported_error decl.token (codes "global declarations"))

-- `Lower`. In `functions` the definitions replace the prototypes.
unfoldable pub lower : TranslationUnit → Outcome SemaError Module
unfolding refuse_globals declare_prototypes declare_definitions lower_functions
lower tu = do
  refuse_globals tu.declarations
  prototypes ← declare_prototypes tu.prototypes []
  definitions ← declare_definitions tu.functions prototypes []
  fns ← lower_functions tu.functions (definitions ++ prototypes)
  ok (record { functions = fns })
