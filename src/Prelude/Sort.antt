-- ===== src/Prelude/Sort.antt =====
-- Python's `sorted` on texts, and on entries with distinct texts as keys: by code points.
use Prim.Native.String.{String, compare}
use Prim.Native.Nat.{Ordering}
use mathlib.Core.Path.{◌≡◌, refl}
use native.Mathlib.Omega.{arith}
use mathlib.Core.List.{List, [], ◌∷◌}

module _ {ℓ} {A : Type ℓ} (key : A → String) where
  -- An item goes before the first one with a greater key.
  insert_sorted : A → List A → List A
  insert_sorted a [] = a ∷ []
  insert_sorted a (b ∷ bs) =
      let later = b ∷ insert_sorted a bs in
      elim (compare (key a) (key b)) [ Ordering.gt ↦ later | _ ↦ a ∷ b ∷ bs ]

  unfoldable pub sort_by : List A → List A
  unfolding insert_sorted
  sort_by [] = []
  sort_by (a ∷ rest) = insert_sorted a (sort_by rest)

  insert_sorted-not-nil : (a : A) (bs : List A) → insert_sorted a bs ≡ [] → ⊥
  unfolding insert_sorted
  insert_sorted-not-nil a [] h = cc
  insert_sorted-not-nil a (b ∷ bs) h = ground arith

  -- Only nothing sorts to nothing.
  pub sort_by-nil : (xs : List A) → sort_by xs ≡ [] → xs ≡ []
  unfolding sort_by
  sort_by-nil [] h = refl
  sort_by-nil (a ∷ rest) h = elim (insert_sorted-not-nil a (sort_by rest) h) [ ]

-- `sorted(texts)`
abbrev pub sort_texts : List String → List String
sort_texts ts = sort_by (λ t. t) ts
