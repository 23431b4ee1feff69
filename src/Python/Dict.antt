-- ===== src/Python/Dict.antt =====
-- Python's `dict` with string keys: an association list in insertion order, its keys distinct.
use bitaxe_fleet.Prelude.{
  ◌≡◌, refl, false, Option, none, some, List, [], ◌∷◌, arith, if◌then◌else◌, All, Bool-cases, inl,
  inr, sym, ◌++◌,
}
use mathlib.Core.Path.{subst}
use bitaxe_fleet.Python.Text.{Text, text_eq, text_eq_iff, text_eq→eq, text_eq_refl}

abbrev pub Dict {ℓ} : Type ℓ → Type ℓ
Dict V = List (Text × V)

module _ {ℓ} {V : Type ℓ} where
  -- `d.get(k)`
  unfoldable pub lookup : Text → Dict V → Option V
  lookup k [] = none
  lookup k ((j, v) ∷ d) = if text_eq k j then some v else lookup k d

  -- `d[k] = v`: an old key keeps its place
  unfoldable pub insert : Text → V → Dict V → Dict V
  insert k v [] = (k, v) ∷ []
  insert k v ((j, w) ∷ d) = if text_eq k j then (j, v) ∷ d else (j, w) ∷ insert k v d

  -- `d.pop(k, None)`, `del d[k]`
  unfoldable pub erase : Text → Dict V → Dict V
  erase k [] = []
  erase k ((j, w) ∷ d) = let rest = erase k d in if text_eq k j then rest else (j, w) ∷ rest

  pub lookup-insert :
      (k j : Text) (v : V) (d : Dict V)
      → lookup j (insert k v d) ≡ (if text_eq j k then some v else lookup j d)
  unfolding lookup insert
  lookup-insert k j v [] = refl
  lookup-insert k j v ((i, w) ∷ d) = ground (
    arith,
    text_eq_iff k j,
    text_eq_iff k i,
    text_eq_iff j i,
    text_eq_iff j k,
    lookup-insert k j v d,
  )

  pub lookup-erase :
      (k j : Text) (d : Dict V) → lookup j (erase k d) ≡ (if text_eq j k then none else lookup j d)
  unfolding lookup erase
  lookup-erase k j [] = ground arith
  lookup-erase k j ((i, w) ∷ d) =
      ground (arith, text_eq_iff k i, text_eq_iff j i, text_eq_iff j k, lookup-erase k j d)

module _ {ℓ} {V : Type ℓ} where
  -- No key stands twice.
  abbrev pub Distinct : Dict V → Type ℓ
  Distinct [] = Unit
  Distinct ((k, v) ∷ d) = (lookup k d ≡ none) × Distinct d

  pub insert_fresh :
      (k : Text) (v : V) (d : Dict V) → lookup k d ≡ none → insert k v d ≡ d ++ (k, v) ∷ []
  unfolding lookup insert
  insert_fresh k v [] h = refl
  insert_fresh k v ((j, w) ∷ d) h = ground (arith, insert_fresh k v d)

  pub insert-Distinct : (k : Text) (v : V) (d : Dict V) → Distinct d → Distinct (insert k v d)
  unfolding insert
  insert-Distinct k v [] h = (unfold lookup in refl, tt)
  insert-Distinct k v ((j, w) ∷ d) h = elim (Bool-cases (text_eq k j)) [
    | inl same ↦ rw same (h.0, h.1)
    | inr differ ↦ rw differ (
      ground (arith, lookup-insert k j v d, text_eq_iff k j, text_eq_iff j k),
      insert-Distinct k v d h.1,
    )
  ]

  pub erase-Distinct : (k : Text) (d : Dict V) → Distinct d → Distinct (erase k d)
  unfolding erase
  erase-Distinct k [] h = tt
  erase-Distinct k ((j, w) ∷ d) h = elim (Bool-cases (text_eq k j)) [
    | inl same ↦ rw same (erase-Distinct k d h.1)
    | inr differ ↦ rw differ (ground (arith, lookup-erase k j d), erase-Distinct k d h.1)
  ]

  -- A key behind a list of others is not among them.
  pub fresh_of_Distinct :
      (k : Text) (v : V) (d e : Dict V) → Distinct (d ++ (k, v) ∷ e) → lookup k d ≡ none
  unfolding lookup
  fresh_of_Distinct k v [] e h = refl
  fresh_of_Distinct k v ((j, w) ∷ d) e h =
      ground (arith, fresh_of_Distinct k v d e h.1, text_eq_iff k j, text_eq_refl k, found d h.0)
    where
      found : (d : Dict V) → lookup j (d ++ (k, v) ∷ e) ≡ none → text_eq j k ≡ false
      found [] h' = ground arith
      found ((i, u) ∷ d) h' = ground (arith, found d)

module _ {ℓ κ} {V : Type ℓ} where
  -- A predicate on every key and value.
  abbrev pub AllEntries : (Text → V → Type κ) → Dict V → Type κ
  AllEntries P = All (λ (e : Text × V). P e.0 e.1)

  pub insert-AllEntries :
      (P : Text → V → Type κ) (k : Text) (v : V) (d : Dict V)
      → AllEntries P d
      → P k v
      → AllEntries P (insert k v d)
  unfolding insert
  insert-AllEntries P k v [] h p = (p, tt)
  insert-AllEntries P k v ((j, w) ∷ d) h p = elim (Bool-cases (text_eq k j)) [
    | inl same ↦ rw same (subst (λ x. P x v) (text_eq→eq k j same) p, h.1)
    | inr differ ↦ rw differ (h.0, insert-AllEntries P k v d h.1 p)
  ]

  pub erase-AllEntries :
      (P : Text → V → Type κ) (k : Text) (d : Dict V) → AllEntries P d → AllEntries P (erase k d)
  unfolding erase
  erase-AllEntries P k [] h = h
  erase-AllEntries P k ((j, w) ∷ d) h = elim (Bool-cases (text_eq k j)) [
    | inl same ↦ rw same (erase-AllEntries P k d h.1)
    | inr differ ↦ rw differ (h.0, erase-AllEntries P k d h.1)
  ]

  pub lookup-AllEntries :
      (P : Text → V → Type κ) (k : Text) (v : V) (d : Dict V)
      → AllEntries P d
      → lookup k d ≡ some v
      → P k v
  unfolding lookup
  lookup-AllEntries P k v [] h e = cc
  lookup-AllEntries P k v ((j, w) ∷ d) h e = elim (Bool-cases (text_eq k j)) [
    | inl same ↦
        let q : w ≡ v = ground arith in
        subst (λ x. P k x) q (subst (λ x. P x w) (sym (text_eq→eq k j same)) h.0)
    | inr differ ↦ lookup-AllEntries P k v d h.1 (rw differ at e)
  ]
