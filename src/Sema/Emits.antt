-- ===== src/Sema/Emits.antt =====
-- What a lowering does to the function under construction, as a predicate with its rules.
use mathlib.Core.List.{append_assoc, append-nil}
use wihajster.Common.{
  Bool, true, false, List, [], ◌∷◌, ◌++◌, Option, none, some, ◌≡◌, refl, ap, sym, ◌∙◌, All,
}
use wihajster.Common.Bytes.{Bytes}
use wihajster.Common.Maps.{Map, bytes_eq, AllValues}
use wihajster.Common.Outcome.{Outcome, ok, err, Post, returns, raises, Post-map}
use wihajster.Lexer.Token.{Token}
use wihajster.Tac.Types.{Instruction}
use wihajster.Sema.Types.{Message, SemaError, FunctionSignature, void}
use wihajster.Sema.Lowerer.{
  VariableSymbol, Scope, Lowerer, Lowering, ◌>>=◌, pure, fail, fail_if, found, get,
}
use wihajster.Sema.Shape.{Shape, Shape-nil, Shape-append}

abbrev pub NonVoid : Bytes → Type 0
NonVoid typ = bytes_eq typ void ≡ false

-- Variables have object types.
abbrev pub ObjectScope : Scope → Type 0
ObjectScope scope = AllValues (λ (sym : VariableSymbol). NonVoid sym.type_name) scope

abbrev pub NonEmpty : Bytes → Type 0
NonEmpty [] = ⊥
NonEmpty (_ ∷ _) = Unit

-- Functions have names, and parameters of object types.
abbrev pub GoodSignatures : Map Bytes FunctionSignature → Type 0
GoodSignatures [] = Unit
GoodSignatures ((name, sig) ∷ sigs) = NonEmpty name × All NonVoid sig.params × GoodSignatures sigs

pub record Env (l : Lowerer) : Type 0 where
  pub scopes_ok : All ObjectScope l.scopes
  pub functions_ok : GoodSignatures l.functions

pub record Emitted (l l' : Lowerer) (code : List Instruction) : Type 0 where
  pub appended : l'.fn.instructions ≡ l.fn.instructions ++ code
  pub shape : Shape l.next_label_id l'.next_label_id code
  pub env : Env l'

abbrev pub Any : {A : Type 0} → A → Type 0
Any _ = Unit

-- A run that succeeds has appended some code, and `Q` holds of its result and that code.
abbrev pub Ran : {A : Type 0} → (A → List Instruction → Type 0) → Lowerer → A × Lowerer → Type 0
Ran Q l (a, l') = (code : List Instruction) × Emitted l l' code × Q a code

pub record Emits {A : Type 0} (Q : A → List Instruction → Type 0) (m : Lowering A) : Type 0 where
  pub runs : (l : Lowerer) → Env l → Post (Ran Q l) Any (m l)

-- The result alone satisfies `Q`.
abbrev pub Gives : {A : Type 0} → (A → Type 0) → Lowering A → Type 0
Gives Q m = Emits (λ a _. Q a) m

pub Emitted-trans :
    {l₀ l₁ l₂ : Lowerer} (a b : List Instruction)
    → Emitted l₀ l₁ a
    → Emitted l₁ l₂ b
    → Emitted l₀ l₂ (a ++ b)
Emitted-trans {l₀} a b p q = record {
  appended = q.appended ∙ (ap (λ c. c ++ b) p.appended ∙ append_assoc l₀.fn.instructions a b);
  shape = Shape-append a b p.shape q.shape;
  env = q.env;
}

module _ {A B : Type 0} where
  -- A bind appends the code of both parts.
  pub Emits-bind :
      {Q : A → List Instruction → Type 0} {S : A → B → List Instruction → Type 0}
      {R : B → List Instruction → Type 0} {m : Lowering A} {f : A → Lowering B}
      → Emits Q m
      → ((a : A) (code : List Instruction) → Q a code → Emits (S a) (f a))
      → ((a : A) (b : B) (c d : List Instruction) → Q a c → S a b d → R b (c ++ d))
      → Emits R (m >>= f)
  unfolding ◌>>=◌
  Emits-bind {Q} {S} {R} {m} {f} hm hf join = record {
    runs = λ l env. first l (m l) (hm.runs l env);
  }
    where
      second :
          (l : Lowerer) (a : A) (l₁ : Lowerer) (c : List Instruction)
          → Emitted l l₁ c
          → Q a c
          → (r : Outcome SemaError (B × Lowerer)) → Post (Ran (S a) l₁) Any r
          → Post (Ran R l) Any r
      second l a l₁ c e q (ok (b, l₂)) (returns (d, e', s)) =
          returns (c ++ d, Emitted-trans c d e e', join a b c d q s)
      second l a l₁ c e q (err x) h = raises tt

      first :
          (l : Lowerer) (r : Outcome SemaError (A × Lowerer))
          → Post (Ran Q l) Any r
          → Post (Ran R l) Any (elim r [ ok (a, l') ↦ f a l' | err e ↦ err e ])
      first l (ok (a, l₁)) (returns (c, e, q)) =
          second l a l₁ c e q (f a l₁) ((hf a c q).runs l₁ e.env)
      first l (err x) h = raises tt

  -- The rule for postconditions on results.
  pub Gives-bind :
      {Q : A → Type 0} {R : B → Type 0} {m : Lowering A} {f : A → Lowering B}
      → Gives Q m
      → ((a : A) → Q a → Gives R (f a))
      → Gives R (m >>= f)
  Gives-bind hm hf = Emits-bind hm (λ a _ q. hf a q) (λ a b c d q s. s)

pub Emits-pure :
    {A : Type 0} {Q : A → List Instruction → Type 0} (a : A) → Q a [] → Emits Q (pure a)
unfolding pure
Emits-pure a q = record {
  runs = λ l env. returns (
    [],
    record {
      appended = sym (append-nil l.fn.instructions);
      shape = Shape-nil l.next_label_id;
      env = env;
    },
    q,
  );
}

pub Emits-weaken :
    {A : Type 0} {P Q : A → List Instruction → Type 0} {m : Lowering A}
    → Emits P m
    → ((a : A) (code : List Instruction) → P a code → Q a code)
    → Emits Q m
Emits-weaken hm h = record {
  runs = λ l env. Post-map (λ (a, l') (code, e, p). (code, e, h a code p)) (hm.runs l env);
}

pub Gives-weaken :
    {A : Type 0} {P Q : A → Type 0} {m : Lowering A} → Gives P m → ((a : A) → P a → Q a) → Gives Q m
Gives-weaken hm h = Emits-weaken hm (λ a _. h a)

pub Emits-fail :
    {A : Type 0} {Q : A → List Instruction → Type 0} (tok : Token) (m : Message)
    → Emits Q (fail tok m)
unfolding fail
Emits-fail tok m = record { runs = λ l env. raises tt }

pub Gives-fail_if :
    (b : Bool) (tok : Token) (m : Message) → Gives (λ _. b ≡ false) (fail_if b tok m)
unfolding fail_if
Gives-fail_if true tok m = Emits-fail tok m
Gives-fail_if false tok m = Emits-pure tt refl

pub Gives-found :
    {A : Type 0} (P : A → Type 0) (o : Option A) (tok : Token) (m : Message)
    → ((a : A) → o ≡ some a → P a)
    → Gives P (found o tok m)
unfolding found
Gives-found P none tok m h = Emits-fail tok m
Gives-found P (some a) tok m h = Emits-pure a (h a refl)

pub Gives-get : Gives Env get
unfolding get
Gives-get = record {
  runs = λ l env. returns (
    [],
    record {
      appended = sym (append-nil l.fn.instructions);
      shape = Shape-nil l.next_label_id;
      env = env;
    },
    env,
  );
}
