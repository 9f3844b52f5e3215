-- ===== src/Common/Outcome.antt =====
-- A Go result with an error beside it: `return x, nil` or `return zero, err`.
use mathlib.Core.Path.{◌≡◌, refl}
use mathlib.Core.Bool.{Bool, true, false}
use mathlib.Core.Option.{Option, none, some}

pub data Outcome {ℓ κ} (E : Type ℓ) (A : Type κ) : Type (ℓ ⊔ κ) where
  ok : A → Outcome E A
  err : E → Outcome E A

infixl 5 ◌>>=◌ ◌>>◌
abbrev pub ◌>>=◌ {ℓ κ μ} :
    {E : Type ℓ} {A : Type κ} {B : Type μ} → Outcome E A → (A → Outcome E B) → Outcome E B
ok a >>= f = f a
err e >>= f = err e

abbrev pub ◌>>◌ {ℓ μ} : {E : Type ℓ} {B : Type μ} → Outcome E (Unit {0}) → Outcome E B → Outcome E B
m >> k = m >>= λ _. k

-- `if !test { return err }`.
abbrev pub check {ℓ} : {E : Type ℓ} → Bool → E → Outcome E (Unit {0})
check true e = ok tt
check false e = err e

-- A map's `v, ok := m[k]`, with the error for a missing key.
abbrev pub found {ℓ κ} : {E : Type ℓ} {A : Type κ} → Option A → E → Outcome E A
found (some a) e = ok a
found none e = err e

-- `P` holds of a value, `Q` of an error.
pub data Post {ℓ κ} {E : Type ℓ} {A : Type κ} (P : A → Type 0) (Q : E → Type 0)
    : Outcome E A → Type (ℓ ⊔ κ) where
  returns : {a : A} → P a → Post P Q (ok a)
  raises : {e : E} → Q e → Post P Q (err e)

module _ {ℓ κ} {E : Type ℓ} {A : Type κ} {P : A → Type 0} {Q : E → Type 0} where
  pub Post-ok : {a : A} → Post P Q (ok a) → P a
  Post-ok (returns h) = h

  pub Post-err : {e : E} → Post P Q (err e) → Q e
  Post-err (raises h) = h

  pub Post-bind {μ} :
      {B : Type μ} {R : B → Type 0} {r : Outcome E A} {f : A → Outcome E B}
      → Post P Q r
      → ((a : A) → P a → Post R Q (f a))
      → Post R Q (r >>= f)
  Post-bind (returns h) k = k _ h
  Post-bind (raises h) k = raises h

  pub Post-map :
      {R : A → Type 0} {r : Outcome E A} → ((a : A) → P a → R a) → Post P Q r → Post R Q r
  Post-map k (returns h) = returns (k _ h)
  Post-map k (raises h) = raises h

pub Post-forget {ℓ κ} :
    {E : Type ℓ} {A : Type κ} {P : A → Type 0} {Q : E → Type 0} {r : Outcome E A}
    → Post P Q r
    → Post P (λ _. Unit {0}) r
Post-forget (returns h) = returns h
Post-forget (raises h) = raises tt

pub Post-true {ℓ κ} :
    {E : Type ℓ} {A : Type κ} (r : Outcome E A) → Post (λ _. Unit {0}) (λ _. Unit {0}) r
Post-true (ok a) = returns tt
Post-true (err e) = raises tt

pub Post-both {ℓ κ} :
    {E : Type ℓ} {A : Type κ} {P R : A → Type 0} {Q : E → Type 0} {r : Outcome E A}
    → Post P Q r
    → Post R Q r
    → Post (λ a. P a × R a) Q r
Post-both (returns h) k = returns (h, Post-ok k)
Post-both (raises h) k = raises h

-- What is known of the values, and what is known of the errors.
pub Post-with {ℓ κ} :
    {E : Type ℓ} {A : Type κ} {P R : A → Type 0} {Q : E → Type 0} {r : Outcome E A}
    → Post P (λ _. Unit {0}) r
    → Post R Q r
    → Post P Q r
Post-with (returns h) k = returns h
Post-with (raises h) k = raises (Post-err k)

module _ {ℓ} {E : Type ℓ} {Q : E → Type 0} (e : E) where
  pub Post-check : (b : Bool) → Q e → Post (λ _. b ≡ true) Q (check b e)
  Post-check true h = returns refl
  Post-check false h = raises h

  pub Post-found {κ} : {A : Type κ} (o : Option A) → Q e → Post (λ _. Unit) Q (found o e)
  Post-found (some a) h = returns tt
  Post-found none h = raises h
