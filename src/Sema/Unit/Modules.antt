-- ===== src/Sema/Unit/Modules.antt =====
-- internal/sema/lower.go: the bodies of the functions of a lowered translation unit.
use wihajster.Common.{not, List, [], ◌∷◌, ◌++◌, Option, none, some, All, inl, inr, Bool-cases}
use wihajster.Common.Bytes.{Bytes, codes}
use wihajster.Common.Maps.{Map, bytes_eq, bytes_key, lookup, exists, assign}
use wihajster.Common.Outcome.{
  check, Post, Post-bind, Post-check, Post-map, Post-true, returns, raises,
}
use wihajster.Lexer.Token.{Token}
use wihajster.Parser.Ast.{
  FunctionDefinition, FunctionPrototype, FunctionParameter, TranslationUnit, TypeName, Declaration,
}
use wihajster.Tac.Types.{Function, Module}
use wihajster.Tac.Code.{WellFormed}
use wihajster.Sema.Types.{
  FunctionSignature, signature_params, signature_for_function, lower_type, lower_object_type,
  same_signature, void, unsupported_error,
}
use wihajster.Sema.Emits.{NonVoid, NonEmpty, GoodSignatures, Any}
use wihajster.Sema.Lower.Bodies.{lower_function-WellFormed}
use wihajster.Sema.Unit.{
  Signatures, merge_prototype, declare_prototypes, refuse_second, match_prototype,
  declare_definitions, lower_functions, refuse_globals, lower,
}

GoodBodies : List Function → Type 0
GoodBodies fns = All (λ (fn : Function). WellFormed fn.instructions) fns

lower_object_type-Post : (tok : Token) (t : TypeName) → Post NonVoid Any (lower_object_type tok t)
unfolding lower_object_type
lower_object_type-Post tok t = elim (Bool-cases (bytes_eq (lower_type t) void)) [
  | inl e ↦ rw e (raises tt)
  | inr e ↦ rw e (returns e)
]

signature_params-Post :
    (ps : List FunctionParameter) (seen : Map Bytes (Unit {0}))
    → Post (λ typs. All NonVoid typs) Any (signature_params ps seen)
unfolding signature_params
signature_params-Post [] seen = returns tt
signature_params-Post (p ∷ ps) seen =
    Post-bind (lower_object_type-Post p.token p.type_name) λ typ nv.
      Post-bind (Post-check _ (not (exists p.name seen)) tt) λ _ _.
        Post-bind (signature_params-Post ps (assign p.name tt seen)) λ typs h. returns (nv, h)

signature_for_function-Post :
    (tok : Token) (ret : TypeName) (ps : List FunctionParameter)
    → Post
        (λ (sig : FunctionSignature). All NonVoid sig.params)
        Any
        (signature_for_function tok ret ps)
unfolding signature_for_function
signature_for_function-Post tok ret ps =
    Post-bind
      (Post-true (
        check (not (bytes_eq (lower_type ret) []))
          (unsupported_error tok (codes "function return type"))))
      λ _ _. Post-bind (signature_params-Post ps []) λ typs h. returns h

merge_prototype-Post :
    (proto : FunctionPrototype) (sig : FunctionSignature) (o : Option FunctionSignature)
    (sigs : Signatures)
    → NonEmpty proto.name
    → All NonVoid sig.params
    → GoodSignatures sigs
    → Post GoodSignatures Any (merge_prototype proto sig o sigs)
unfolding merge_prototype
merge_prototype-Post proto sig (some prev) sigs n h k =
    elim (Bool-cases (same_signature prev sig)) [
      | inl e ↦ rw e (returns k)
      | inr e ↦ rw e (raises tt)
    ]
merge_prototype-Post proto sig none sigs n h k = returns (n, h, k)

declare_prototypes-Post :
    (protos : List FunctionPrototype) (sigs : Signatures)
    → All (λ (p : FunctionPrototype). NonEmpty p.name) protos
    → GoodSignatures sigs
    → Post GoodSignatures Any (declare_prototypes protos sigs)
unfolding declare_prototypes
declare_prototypes-Post [] sigs n k = returns k
declare_prototypes-Post (proto ∷ protos) sigs (n, ns) k =
    Post-bind (signature_for_function-Post proto.token proto.return_type proto.parameters) λ sig h.
      Post-bind (merge_prototype-Post proto sig (lookup proto.name sigs) sigs n h k)
        λ sigs' k'. declare_prototypes-Post protos sigs' ns k'

refuse_second-Post :
    (pfn : FunctionDefinition) (sig : FunctionSignature) (o : Option FunctionSignature)
    → Post Any Any (refuse_second pfn sig o)
unfolding refuse_second
refuse_second-Post pfn sig none = returns tt
refuse_second-Post pfn sig (some prev) = raises tt

match_prototype-Post :
    (pfn : FunctionDefinition) (sig : FunctionSignature) (o : Option FunctionSignature)
    → Post Any Any (match_prototype pfn sig o)
unfolding match_prototype
match_prototype-Post pfn sig none = returns tt
match_prototype-Post pfn sig (some proto) =
    Post-map (λ _ _. tt) (Post-check _ (same_signature proto sig) tt)

declare_definitions-Post :
    (pfns : List FunctionDefinition) (prototypes sigs : Signatures)
    → All (λ (p : FunctionDefinition). NonEmpty p.name) pfns
    → GoodSignatures sigs
    → Post GoodSignatures Any (declare_definitions pfns prototypes sigs)
unfolding declare_definitions
declare_definitions-Post [] prototypes sigs n k = returns k
declare_definitions-Post (pfn ∷ pfns) prototypes sigs (n, ns) k =
    Post-bind (signature_for_function-Post pfn.token pfn.return_type pfn.parameters) λ sig h.
      Post-bind (refuse_second-Post pfn sig (lookup pfn.name sigs)) λ _ _.
        Post-bind (match_prototype-Post pfn sig (lookup pfn.name prototypes))
          λ _ _. declare_definitions-Post pfns prototypes (assign pfn.name sig sigs) ns (n, h, k)

GoodSignatures-append :
    (a b : Signatures) → GoodSignatures a → GoodSignatures b → GoodSignatures (a ++ b)
GoodSignatures-append [] b h k = k
GoodSignatures-append ((n, s) ∷ a) b (p, q, h) k = (p, q, GoodSignatures-append a b h k)

lower_functions-Post :
    (pfns : List FunctionDefinition) (sigs : Signatures)
    → GoodSignatures sigs
    → Post GoodBodies Any (lower_functions pfns sigs)
unfolding lower_functions GoodBodies
lower_functions-Post [] sigs h = returns tt
lower_functions-Post (pfn ∷ pfns) sigs h =
    Post-bind (lower_function-WellFormed pfn sigs h)
      λ fn p. Post-bind (lower_functions-Post pfns sigs h) λ fns ps. returns (p, ps)

refuse_globals-Post : (decls : List Declaration) → Post Any Any (refuse_globals decls)
unfolding refuse_globals
refuse_globals-Post [] = returns tt
refuse_globals-Post (decl ∷ _) = raises tt

-- Every function has a name.
abbrev pub NamedUnit : TranslationUnit → Type 0
NamedUnit tu =
    All (λ (p : FunctionPrototype). NonEmpty p.name) tu.prototypes
    × All (λ (p : FunctionDefinition). NonEmpty p.name) tu.functions

-- `Lower`, on a translation unit whose functions have names, fails or returns a module in which every
-- function has a well-formed body: each instruction passes `VerifyInstruction`, each label is defined
-- at most once, each target of a jump or a branch is defined, and the last instruction is a
-- terminator.
pub lower-WellFormed :
    (tu : TranslationUnit)
    → NamedUnit tu
    → Post
        (λ (m : Module). All (λ (fn : Function). WellFormed fn.instructions) m.functions)
        Any
        (lower tu)
unfolding lower GoodBodies
lower-WellFormed tu (np, nf) = Post-bind (refuse_globals-Post tu.declarations) λ _ _.
    Post-bind (declare_prototypes-Post tu.prototypes [] np tt) λ prototypes p.
      Post-bind (declare_definitions-Post tu.functions prototypes [] nf tt) λ definitions d.
        Post-bind
          (lower_functions-Post tu.functions (definitions ++ prototypes)
            (GoodSignatures-append definitions prototypes d p))
          λ fns h. returns h
