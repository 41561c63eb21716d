-- ===== src/Base/Table.antt =====
-- Tables, as association lists, and tables whose entries expire.
use Prim.Native.Nat.{ℕ}
use mathlib.Core.Path.{◌≡◌, refl}
use mathlib.Core.Option.{Option, none, some}
use mathlib.Core.List.{List, [], ◌∷◌}
use native.Mathlib.Omega.{arith}
use load_test_backend.Base.Equality.{Eq, ◌==◌}
use load_test_backend.Base.Tests.{leb, if◌then◌else◌}

abbrev pub Assoc {ℓ} : Type ℓ → Type ℓ → Type ℓ
Assoc K V = List (K × V)

module _ {ℓ} {K V : Type ℓ} ⦃e : Eq K⦄ where
  unfoldable pub lookup : K → Assoc K V → Option V
  lookup key [] = none
  lookup key ((other, v) ∷ t) = if other == key then some v else lookup key t

  unfoldable pub insert : K → V → Assoc K V → Assoc K V
  insert key v [] = (key, v) ∷ []
  insert key v ((other, old) ∷ t) =
      if other == key then (key, v) ∷ t else (other, old) ∷ insert key v t

  unfoldable pub remove : K → Assoc K V → Assoc K V
  remove key [] = []
  remove key ((other, v) ∷ t) =
      let rest = remove key t in if other == key then rest else (other, v) ∷ rest

  pub lookup-insert :
      (key other : K) (v : V) (t : Assoc K V)
      → lookup other (insert key v t) ≡ (if key == other then some v else lookup other t)
  unfolding lookup insert
  lookup-insert key other v [] = refl
  lookup-insert key other v ((here, old) ∷ t) = ground (
    arith,
    e.beq_iff key other,
    e.beq_iff here key,
    e.beq_iff here other,
    lookup-insert key other v t,
  )

  pub lookup-remove :
      (key other : K) (t : Assoc K V)
      → lookup other (remove key t) ≡ (if key == other then none else lookup other t)
  unfolding lookup remove
  lookup-remove key other [] = ground arith
  lookup-remove key other ((here, v) ∷ t) = ground (
    arith,
    lookup-remove key other t,
    e.beq_iff here key,
    e.beq_iff here other,
    e.beq_iff key other,
  )

-- A value with the last time at which it is still there; `none` is for ever.
pub record Entry {ℓ} (V : Type ℓ) : Type ℓ where
  pub value : V
  pub deadline : Option ℕ

module _ {ℓ} {V : Type ℓ} where
  abbrev pub fresh : ℕ → Option (Entry V) → Option V
  fresh now none = none
  fresh now (some e) = elim e.deadline [
    | none ↦ some e.value
    | some d ↦ if leb now d then some e.value else none
  ]
