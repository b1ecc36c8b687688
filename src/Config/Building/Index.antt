-- ===== src/Config/Building/Index.antt =====
-- What a registry finds under a name, in its items indexed by their names.
use llm_endpoint.Prelude.{
  ◌≡◌, refl, sym, subst, ap, ◌∙◌, ◌⊎◌, inl, inr, String, true, false, none, some, List, [], ◌∷◌,
  contains, map, All, eq_iff, ◌==◌, Bool-cases, arith,
}
use llm_endpoint.Prelude.Dict.{Dict, lookup, insert, lookup-insert}
use llm_endpoint.Config.Names.{add_name, add_names}
use llm_endpoint.Config.Building.{index_by}

module _ {A : Type 0} where
  some-injective : {a b : A} → some a ≡ some b → a ≡ b
  some-injective h = cc

  none-not-some : {a : A} → none ≡ some a → ⊥
  none-not-some h = cc

false-not-true : false ≡ true → ⊥
false-not-true h = cc

module _ {A : Type 0} (key : A → String) where
  -- What is found has the property, and the name under which it is found.
  abbrev pub Holds : (A → Type 0) → Dict A → Type 0
  Holds P d = (k : String) (a : A) → lookup k d ≡ some a → P a × (key a ≡ k)

  pub empty-Holds : (P : A → Type 0) → Holds P []
  unfolding lookup
  empty-Holds P k a missing = elim (none-not-some missing) [ ]

  insert-Holds :
      (P : A → Type 0) (a : A) (d : Dict A) → P a → Holds P d → Holds P (insert (key a) a d)
  insert-Holds P a d here there k b found =
      let at_key = sym (lookup-insert {V = A} (key a) k a d) ∙ found in
      elim (Bool-cases (key a == k)) [
        | inl same ↦ (
          subst P (some-injective (rw same at at_key)) here,
          sym (ap key (some-injective (rw same at at_key))) ∙ (eq_iff (key a) k).0 same,
        )
        | inr other ↦ there k b (rw other at at_key)
      ]

  pub index_by-Holds :
      (P : A → Type 0) (items : List A) (d : Dict A)
      → All P items
      → Holds P d
      → Holds P (index_by key items d)
  unfolding index_by
  index_by-Holds P [] d all there = there
  index_by-Holds P (a ∷ items) d (here, all) there =
      index_by-Holds P items (insert (key a) a d) all (insert-Holds P a d here there)

  -- Something is found under the name.
  abbrev pub Finds : Dict A → String → Type 0
  Finds d k = (a : A) × (lookup k d ≡ some a)

  pub empty-Finds : (k : String) → contains k [] ≡ true → Finds [] k
  empty-Finds k h = elim (false-not-true h) [ ]

  insert-Finds :
      (a : A) (d : Dict A) (k : String) → (key a ≡ k) ⊎ Finds d k → Finds (insert (key a) a d) k
  insert-Finds a d k (inl same) =
      (a, rw (lookup-insert {V = A} (key a) k a d, (eq_iff (key a) k).1 same) refl)
  insert-Finds a d k (inr (b, found)) = elim (Bool-cases (key a == k)) [
    | inl same ↦ (a, rw (lookup-insert {V = A} (key a) k a d, same) refl)
    | inr other ↦ (b, rw (lookup-insert {V = A} (key a) k a d, other) found)
  ]

  contains-add_name :
      (name u : String) (seen : List String)
      → contains u (add_name name seen) ≡ true
      → (name ≡ u) ⊎ (contains u seen ≡ true)
  unfolding add_name
  contains-add_name name u seen h = ground (arith, eq_iff name u)

  pub index_by-Finds :
      (items : List A) (seen : List String) (d : Dict A) (k : String)
      → (contains k seen ≡ true → Finds d k)
      → contains k (add_names (map key items) seen) ≡ true
      → Finds (index_by key items d) k
  unfolding index_by add_names
  index_by-Finds [] seen d k known h = known h
  index_by-Finds (a ∷ items) seen d k known h =
      index_by-Finds items (add_name (key a) seen) (insert (key a) a d) k
        (λ later. elim (contains-add_name (key a) k seen later) [
          | inl same ↦ insert-Finds a d k (inl same)
          | inr before ↦ insert-Finds a d k (inr (known before))
        ])
        h
