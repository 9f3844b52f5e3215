-- ===== src/Sema/Signatures.antt =====
-- internal/sema/lower.go: `sameSignature`, and the names of pointer types.
use mathlib.Core.List.{reverse-append}
use wihajster.Common.{
  length-append, ◌-◌, true, List, [], ◌∷◌, ◌++◌, some, length, take, ◌≡◌, ◌↔◌, refl, ap, arith,
}
use wihajster.Common.Bytes.{Bytes, codes, has_suffix}
use wihajster.Common.Maps.{bytes_eq_iff}
use wihajster.Sema.Types.{FunctionSignature, same_signature, same_types, pointee_type, pointer_to}

same_types_iff : (a b : List Bytes) → (same_types a b ≡ true) ↔ (a ≡ b)
unfolding same_types
same_types_iff [] [] = ((λ _. refl), λ _. refl)
same_types_iff [] (y ∷ b) = ((λ h. cc), λ h. cc)
same_types_iff (x ∷ a) [] = ((λ h. cc), λ h. cc)
same_types_iff (x ∷ a) (y ∷ b) = ground (arith, bytes_eq_iff x y, same_types_iff a b)

-- `sameSignature` holds exactly of equal signatures.
pub same_signature_iff : (a b : FunctionSignature) → (same_signature a b ≡ true) ↔ (a ≡ b)
unfolding same_signature
same_signature_iff a b =
    ground (arith, bytes_eq_iff a.return_type b.return_type, same_types_iff a.params b.params)

has_suffix-append : (typ : Bytes) → has_suffix (typ ++ codes "*") (codes "*") ≡ true
unfolding has_suffix
has_suffix-append typ = rw (reverse-append typ (codes "*")) refl

take-length : (typ rest : Bytes) → take (length typ) (typ ++ rest) ≡ typ
take-length [] rest = refl
take-length (c ∷ typ) rest = ap (λ s. c ∷ s) (take-length typ rest)

take-append : (typ : Bytes) → take (length (typ ++ codes "*") - 1) (typ ++ codes "*") ≡ typ
take-append typ =
    let e : length (typ ++ codes "*") - 1 ≡ length typ =
      omega (arith, length-append typ (codes "*")) in
    rw e (take-length typ (codes "*"))

-- `pointeeType` of what `pointerTo` returns is the type that it was given.
pub pointee_type-pointer_to : (typ : Bytes) → pointee_type (pointer_to typ) ≡ some typ
unfolding pointee_type pointer_to
pointee_type-pointer_to typ = rw (has_suffix-append typ, take-append typ) refl
