-- ===== src/Base/Maps.antt =====
-- Maps as association lists in insertion order. A key is a string, as the list of its bytes.
use Prim.Native.Nat.{ℕ}
use mathlib.Core.Path.{◌≡◌, refl, ap₂, ◌∙◌, sym, subst}
use mathlib.Core.Logic.{◌≢◌, ◌⊎◌, inl, inr}
use mathlib.Core.Bool.{Bool, true, false, ◌&&◌}
use mathlib.Core.List.{List, [], ◌∷◌}
use mathlib.Core.Option.{Option, none, some}
use native.Mathlib.Omega.{arith}
use fell.Base.Tests.{if◌then◌else◌, ◌==◌, Bool-cases}

-- Equality of byte strings.
abbrev pub same_text : List ℕ → List ℕ → Bool
same_text [] [] = true
same_text [] (c ∷ t) = false
same_text (c ∷ t) [] = false
same_text (c ∷ t) (d ∷ u) = (c == d) && same_text t u

pub same_text_refl : (t : List ℕ) → same_text t t ≡ true
same_text_refl [] = refl
same_text_refl (c ∷ t) = ground (arith, same_text_refl t)

pub same_text→≡ : (t u : List ℕ) → same_text t u ≡ true → t ≡ u
same_text→≡ [] [] e = refl
same_text→≡ [] (d ∷ u) e = absurd (ground (arith, e))
same_text→≡ (c ∷ t) [] e = absurd (ground (arith, e))
same_text→≡ (c ∷ t) (d ∷ u) e =
    let tails = same_text→≡ t u in
    ap₂ ◌∷◌ {x = c} {y = d} (ground (arith, e)) (tails (ground (arith, e)))

pub same_text-false : (t u : List ℕ) → t ≢ u → same_text t u ≡ false
same_text-false t u differ = elim (Bool-cases (same_text t u)) [
  | inl same ↦ absurd (differ (same_text→≡ t u same))
  | inr other ↦ other
]

pub same_text-differ : (t u : List ℕ) → same_text t u ≡ false → t ≢ u
same_text-differ t u d e =
    absurd (ground (arith, d, subst (λ v. same_text t v ≡ true) e (same_text_refl t)))

module _ {ℓ} {A : Type ℓ} where
  abbrev pub find : List ℕ → List (List ℕ × A) → Option A
  find key [] = none
  find key ((k, a) ∷ m) = if same_text k key then some a else find key m

  -- Replaces the value at the key, or adds the key.
  abbrev pub put : List ℕ → A → List (List ℕ × A) → List (List ℕ × A)
  put key a [] = (key, a) ∷ []
  put key a ((k, b) ∷ m) = if same_text k key then (k, a) ∷ m else (k, b) ∷ put key a m

  pub find-put : (key : List ℕ) (a : A) (m : List (List ℕ × A)) → find key (put key a m) ≡ some a
  find-put key a [] = rw (same_text_refl key) refl
  find-put key a ((k, b) ∷ m) = elim (Bool-cases (same_text k key)) [
    | inl here ↦ rw (here, here) refl
    | inr there ↦ rw (there, there) (find-put key a m)
  ]

  pub find-put_other :
      (key other : List ℕ) (a : A) (m : List (List ℕ × A))
      → key ≢ other
      → find other (put key a m) ≡ find other m
  find-put_other key other a [] h = rw (same_text-false key other h) refl
  find-put_other key other a ((k, b) ∷ m) h = elim (Bool-cases (same_text k key)) [
    | inl here ↦
        let away : same_text k other ≡ false =
          same_text-false k other (λ e. h (sym (same_text→≡ k key here) ∙ e)) in
        rw (here, away) refl
    | inr there ↦ elim (Bool-cases (same_text k other)) [
      | inl found ↦ rw (there, found) refl
      | inr not_found ↦ rw (there, not_found) (find-put_other key other a m h)
    ]
  ]

  -- What a map has after a `put` was put, or was there.
  pub find-put_cases :
      (key other : List ℕ) (a b : A) (m : List (List ℕ × A))
      → find other (put key a m) ≡ some b
      → (key ≡ other) ⊎ (find other m ≡ some b)
  find-put_cases key other a b m e = elim (Bool-cases (same_text key other)) [
    | inl same ↦ inl (same_text→≡ key other same)
    | inr differs ↦
        inr (sym (find-put_other key other a m (same_text-differ key other differs)) ∙ e)
  ]

  -- No key is lost by a `put`.
  pub find-put_keeps :
      (key other : List ℕ) (a b : A) (m : List (List ℕ × A))
      → find other m ≡ some b
      → (c : A) × (find other (put key a m) ≡ some c)
  find-put_keeps key other a b m e = elim (Bool-cases (same_text key other)) [
    | inl same ↦ (
      a,
      subst (λ k. find k (put key a m) ≡ some a) (same_text→≡ key other same) (find-put key a m),
    )
    | inr differs ↦ (b, find-put_other key other a m (same_text-differ key other differs) ∙ e)
  ]
