-- ===== src/Prelude/Maps.antt =====
-- Go's maps as association lists, over keys with a Boolean equality.
use mathlib.Core.Path.{◌≡◌, refl, sym, ap, ◌∙◌, subst}
use mathlib.Core.Logic.{◌⊎◌, inl, inr}
use mathlib.Core.Bool.{Bool, true, false}
use mathlib.Core.Option.{Option, none, some}
use mathlib.Core.List.{List, [], ◌∷◌}
use immulog.Prelude.Tests.{if◌then◌else◌, Bool-cases, some-injective}

-- The keys' `==`.
pub record Eq {ℓ} (A : Type ℓ) : Type ℓ where
  pub beq : A → A → Bool
  pub refl_lem : (a : A) → beq a a ≡ true
  pub beq→eq : (a b : A) → beq a b ≡ true → a ≡ b

abbrev pub is_some {ℓ} : {A : Type ℓ} → Option A → Bool
is_some none = false
is_some (some a) = true

module _ {ℓ κ} {K : Type ℓ} {V : Type κ} ⦃e : Eq K⦄ where
  -- `value, exists := m[k]`
  unfoldable pub lookup : K → List (K × V) → Option V
  lookup k [] = none
  lookup k ((j, v) ∷ m) = if e.beq j k then some v else lookup k m

  -- `m[k] = v`
  unfoldable pub insert : K → V → List (K × V) → List (K × V)
  insert k v [] = (k, v) ∷ []
  insert k v ((j, w) ∷ m) = if e.beq j k then (k, v) ∷ m else (j, w) ∷ insert k v m

  abbrev pub has : K → List (K × V) → Bool
  has k m = is_some (lookup k m)

  pub lookup-insert_self : (k : K) (v : V) (m : List (K × V)) → lookup k (insert k v m) ≡ some v
  unfolding lookup insert
  lookup-insert_self k v [] = rw (e.refl_lem k) refl
  lookup-insert_self k v ((j, w) ∷ m) = elim (Bool-cases (e.beq j k)) [
    | inl same ↦ rw (same, e.refl_lem k) refl
    | inr other ↦ rw (other, other) (lookup-insert_self k v m)
  ]

  pub lookup-insert_ne :
      (k j : K) (v : V) (m : List (K × V))
      → e.beq k j ≡ false
      → lookup j (insert k v m) ≡ lookup j m
  unfolding lookup insert
  lookup-insert_ne k j v [] h = rw h refl
  lookup-insert_ne k j v ((i, w) ∷ m) h = elim (Bool-cases (e.beq i k)) [
    | inl same ↦ let o : e.beq i j ≡ false = rw (e.beq→eq i k same) h in rw (same, h, o) refl
    | inr other ↦ rw (other, lookup-insert_ne k j v m h) refl
  ]

  pub lookup-insert :
      (k j : K) (v : V) (m : List (K × V))
      → lookup j (insert k v m) ≡ (if e.beq k j then some v else lookup j m)
  lookup-insert k j v m = elim (Bool-cases (e.beq k j)) [
    | inl same ↦ rw (same, ← e.beq→eq k j same) (lookup-insert_self k v m)
    | inr other ↦ rw other (lookup-insert_ne k j v m other)
  ]

  -- An entry behind a write is the one written, under an equal key, or one from before.
  pub lookup-insert_cases :
      (k j : K) (v w : V) (m : List (K × V))
      → lookup j (insert k v m) ≡ some w
      → ((k ≡ j) × (v ≡ w)) ⊎ ((e.beq k j ≡ false) × (lookup j m ≡ some w))
  lookup-insert_cases k j v w m h = elim (Bool-cases (e.beq k j)) [
    | inl same ↦
        let eq = e.beq→eq k j same in
        let h' = subst (λ (i : K). lookup i (insert k v m) ≡ some w) (sym eq) h in
        inl (eq, some-injective (sym (lookup-insert_self k v m) ∙ h'))
    | inr other ↦ inr (other, sym (lookup-insert_ne k j v m other) ∙ h)
  ]

  pub has-insert_self : (k : K) (v : V) (m : List (K × V)) → has k (insert k v m) ≡ true
  has-insert_self k v m = ap is_some (lookup-insert_self k v m)

  pub has-insert :
      (k j : K) (v : V) (m : List (K × V)) → has j m ≡ true → has j (insert k v m) ≡ true
  has-insert k j v m h = elim (Bool-cases (e.beq k j)) [
    | inl same ↦
        subst (λ (i : K). has i (insert k v m) ≡ true) (e.beq→eq k j same) (has-insert_self k v m)
    | inr other ↦ ap is_some (lookup-insert_ne k j v m other) ∙ h
  ]
