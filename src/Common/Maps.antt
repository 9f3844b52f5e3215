-- ===== src/Common/Maps.antt =====
-- Go maps: association lists, the latest assignment first, over keys with a test of equality.
use Prim.Native.Nat.{ℕ}
use mathlib.Core.Path.{◌≡◌, refl}
use mathlib.Core.Bool.{Bool, true, false, ◌&&◌}
use mathlib.Core.Logic.{◌↔◌, inl, inr}
use mathlib.Core.Option.{Option, none, some}
use mathlib.Core.List.{List, [], ◌∷◌}
use native.Mathlib.Omega.{arith}
use wihajster.Common.Tests.{◌==◌ as nat_beq, ==_iff, if◌then◌else◌, Bool-cases}
use wihajster.Common.Bytes.{Bytes}

-- Go's comparison of keys, which decides equality.
pub record Eq {ℓ} (K : Type ℓ) : Type ℓ where
  pub same : K → K → Bool
  pub same_iff : (j k : K) → (same j k ≡ true) ↔ (j ≡ k)

-- `a == b` on strings.
unfoldable pub bytes_eq : Bytes → Bytes → Bool
bytes_eq [] [] = true
bytes_eq [] (_ ∷ _) = false
bytes_eq (_ ∷ _) [] = false
bytes_eq (a ∷ s) (b ∷ t) = nat_beq a b && bytes_eq s t

pub bytes_eq_iff : (s t : Bytes) → (bytes_eq s t ≡ true) ↔ (s ≡ t)
unfolding bytes_eq
bytes_eq_iff [] [] = ((λ _. refl), λ _. refl)
bytes_eq_iff [] (b ∷ t) = ((λ h. cc), λ h. cc)
bytes_eq_iff (a ∷ s) [] = ((λ h. cc), λ h. cc)
bytes_eq_iff (a ∷ s) (b ∷ t) = ground (arith, ==_iff a b, bytes_eq_iff s t)

infix 50 ◌=?◌
abbrev pub ◌=?◌ {ℓ} : {K : Type ℓ} ⦃e : Eq K⦄ → K → K → Bool
◌=?◌ ⦃e⦄ = e.same

instance abbrev pub nat_eq : Eq ℕ
nat_eq = record { same_iff = ==_iff; same = nat_beq }

instance abbrev pub bytes_key : Eq Bytes
bytes_key = record { same_iff = bytes_eq_iff; same = bytes_eq }

abbrev pub Map {ℓ κ} : Type ℓ → Type κ → Type (ℓ ⊔ κ)
Map K V = List (K × V)

module _ {ℓ κ} {K : Type ℓ} {V : Type κ} ⦃e : Eq K⦄ where
  -- `v, ok := m[k]`.
  unfoldable pub lookup : K → Map K V → Option V
  lookup k [] = none
  lookup k ((j, v) ∷ m) = if j =? k then some v else lookup k m

  -- `m[k] = v`.
  abbrev pub assign : K → V → Map K V → Map K V
  assign k v m = (k, v) ∷ m

  -- `_, ok := m[k]; ok`.
  unfoldable pub exists : K → Map K V → Bool
  unfolding lookup
  exists k m = elim (lookup k m) [ none ↦ false | some _ ↦ true ]

-- The value, if there is one, satisfies `P`.
abbrev pub OnSome {κ} : {V : Type κ} → (V → Type 0) → Option V → Type 0
OnSome P none = Unit
OnSome P (some v) = P v

abbrev pub AllValues {ℓ κ} : {K : Type ℓ} {V : Type κ} → (V → Type 0) → Map K V → Type 0
AllValues P [] = Unit
AllValues P ((k, v) ∷ m) = P v × AllValues P m

pub lookup-AllValues {ℓ κ} :
    {K : Type ℓ} {V : Type κ} ⦃e : Eq K⦄ (P : V → Type 0) (k : K) (m : Map K V)
    → AllValues P m
    → OnSome P (lookup k m)
unfolding lookup
lookup-AllValues P k [] h = tt
lookup-AllValues P k ((j, v) ∷ m) (p, h) = elim (Bool-cases (j =? k)) [
  | inl found ↦ rw found p
  | inr other ↦ rw other (lookup-AllValues P k m h)
]
