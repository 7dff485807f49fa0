-- ===== src/Prelude/Find.antt =====
-- Searching a list, and what the search says about the elements that pass the test.
use Prim.Native.Nat.{◌+◌}
use mathlib.Core.Path.{◌≡◌, refl}
use mathlib.Core.Logic.{◌⊎◌, inl, inr}
use mathlib.Core.Bool.{Bool, true, false}
use mathlib.Core.List.{List, [], ◌∷◌, ◌++◌}
use mathlib.Core.Option.{none, some}
use native.Mathlib.Omega.{arith}
use ryan_mqtt.Prelude.Tests.{Bool-cases}
use ryan_mqtt.Prelude.Lists.{length, find_at, keep, reject}

module _ {ℓ} {A : Type ℓ} (p : A → Bool) where
  -- What `find_at` has found: the element, and the elements before it, which fail the test.
  pub record IsFirst (xs before : List A) (y : A) (after : List A) : Type ℓ where
    pub split : xs ≡ before ++ y ∷ after
    pub passes : p y ≡ true
    pub none_before : keep p before ≡ []
    pub kept : keep p xs ≡ y ∷ keep p (before ++ after)
    pub rejected : reject p xs ≡ reject p (before ++ after)

  IsFirst-cons :
      (x : A) {xs before : List A} {y : A} {after : List A}
      → p x ≡ false
      → IsFirst xs before y after
      → IsFirst (x ∷ xs) (x ∷ before) y after
  IsFirst-cons x fails f = ground (arith, f.split, f.kept, f.rejected)

  pub find_at_cases :
      (xs : List A)
      → ((find_at p xs ≡ none) × (keep p xs ≡ []) × (reject p xs ≡ xs))
        ⊎ ((before : List A) × (y : A) × (after : List A) × (find_at p xs ≡ some (before, y, after))
            × IsFirst xs before y after)
  find_at_cases [] = inl (refl, refl, refl)
  find_at_cases (x ∷ xs) = elim (Bool-cases (p x)) [
    | inl hit ↦ inr ([], x, xs, ground arith, ground arith)
    | inr miss ↦ elim (find_at_cases xs) [
      | inl (e, k, r) ↦ inl (ground arith, ground arith, ground arith)
      | inr (before, y, after, e, f) ↦
          inr (x ∷ before, y, after, ground arith, IsFirst-cons x miss f)
    ]
  ]

  pub length-keep-reject : (xs : List A) → length (keep p xs) + length (reject p xs) ≡ length xs
  length-keep-reject [] = omega arith
  length-keep-reject (x ∷ xs) = ground (arith, length-keep-reject xs)
