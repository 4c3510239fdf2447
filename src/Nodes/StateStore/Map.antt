-- ===== src/Nodes/StateStore/Map.antt =====
-- The operations of the Map that holds the entries.
use node_red_contrib_eelectr.Base.{
  ℕ, ◌+◌, ◌≤◌, ◌≡◌, ◌⊎◌, inl, inr, refl, arith, true, false, ◌==◌, if◌then◌else◌, none, some, [],
  ◌∷◌, length, drop, Bool-cases,
}
use node_red_contrib_eelectr.Nodes.StateStore.{StoredEntry, Store, find, has, put, delete}

module _ {P : Type 0} where
  -- No two entries have the same key.
  abbrev pub Distinct : Store P → Type 0
  Distinct [] = Unit {0}
  Distinct ((k, e) ∷ m) = (has k m ≡ false) × Distinct m

  pub find_absent : (k : ℕ) (m : Store P) → has k m ≡ false → find k m ≡ none
  unfolding find has
  find_absent k [] h = refl
  find_absent k ((j, e) ∷ m) h = ground (arith, find_absent k m)

  pub find-put :
      (k j : ℕ) (e : StoredEntry P) (m : Store P)
      → find k (put j e m) ≡ (if j == k then some e else find k m)
  unfolding find put
  find-put k j e [] = refl
  find-put k j e ((i, d) ∷ m) = ground (arith, find-put k j e m)

  pub find-delete :
      (k j : ℕ) (m : Store P)
      → Distinct m
      → find k (delete j m) ≡ (if j == k then none else find k m)
  unfolding find delete
  find-delete k j [] v = ground arith
  find-delete k j ((i, d) ∷ m) v = ground (arith, v.0, v.1, find_absent i m, find-delete k j m)

  has-put :
      (k j : ℕ) (e : StoredEntry P) (m : Store P)
      → has k (put j e m) ≡ (if j == k then true else has k m)
  unfolding has put
  has-put k j e [] = refl
  has-put k j e ((i, d) ∷ m) = ground (arith, has-put k j e m)

  has-delete : (k j : ℕ) (m : Store P) → has k m ≡ false → has k (delete j m) ≡ false
  unfolding has delete
  has-delete k j [] h = refl
  has-delete k j ((i, d) ∷ m) h = ground (arith, has-delete k j m)

  pub put-Distinct : (k : ℕ) (e : StoredEntry P) (m : Store P) → Distinct m → Distinct (put k e m)
  unfolding has put
  put-Distinct k e [] v = (refl, tt)
  put-Distinct k e ((j, d) ∷ m) v = ground (arith, v.0, v.1, has-put j k e m, put-Distinct k e m)

  pub delete-Distinct : (k : ℕ) (m : Store P) → Distinct m → Distinct (delete k m)
  unfolding delete
  delete-Distinct k [] v = tt
  delete-Distinct k ((j, d) ∷ m) v = ground (arith, v.0, v.1, has-delete j k m, delete-Distinct k m)

  pub drop-Distinct : (m : Store P) → Distinct m → Distinct (drop 1 m)
  drop-Distinct [] v = tt
  drop-Distinct (x ∷ m) v = v.1

  -- The oldest entry is gone, and the others are found as before.
  pub find-drop :
      (k : ℕ) (m : Store P)
      → Distinct m
      → (find k (drop 1 m) ≡ none) ⊎ (find k (drop 1 m) ≡ find k m)
  unfolding find
  find-drop k [] v = inl refl
  find-drop k ((j, e) ∷ m) v = elim (Bool-cases (j == k)) [
    | inl h ↦ inl (find_absent k m (ground (arith, h, v.0)))
    | inr h ↦ inr (ground (arith, h))
  ]

  pub length-put :
      (k : ℕ) (e : StoredEntry P) (m : Store P)
      → length (put k e m) ≡ (if has k m then length m else length m + 1)
  unfolding has put
  length-put k e [] = refl
  length-put k e ((j, d) ∷ m) = ground (arith, length-put k e m)

  pub length-delete : (k : ℕ) (m : Store P) → length (delete k m) ≤ length m
  unfolding delete
  length-delete k [] = omega arith
  length-delete k ((j, d) ∷ m) = ground (arith, length-delete k m)
