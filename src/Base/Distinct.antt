-- ===== src/Base/Distinct.antt =====
-- Keys of a table: no two rows with one key, and references from table to table.
use bank_transaction_system.Base.{
  ℕ, String, ◌≡◌, refl, ap, fun_ext, ◌∙◌, Bool, true, false, ◌||◌, List, [], ◌∷◌, ◌++◌, arith, ◌==◌,
  Bool-cases, inl, inr, str_eq, str_eq_iff,
}
use bank_transaction_system.Base.Rows.{
  exists_row, update_rows, delete_rows, All, exists_row-update_rows,
}

-- `same x` holds of the rows that have the key of `x`.
pub record IsKey {A : Type 0} (same : A → A → Bool) : Type 0 where
  pub symmetric : (x y : A) → same x y ≡ same y x

pub IsKey-ℕ : {A : Type 0} (key : A → ℕ) → IsKey (λ x y. key y == key x)
IsKey-ℕ key = record { symmetric = λ x y. ground arith }

str_eq_sym : (a b : String) → str_eq a b ≡ str_eq b a
str_eq_sym a b = ground (arith, str_eq_iff a b, str_eq_iff b a)

pub IsKey-String : {A : Type 0} (key : A → String) → IsKey (λ x y. str_eq (key y) (key x))
IsKey-String key = record { symmetric = λ x y. str_eq_sym (key y) (key x) }

module _ {A : Type 0} where
  pub exists_row-++ :
      (p : A → Bool) (xs ys : List A)
      → exists_row p (xs ++ ys) ≡ (exists_row p xs || exists_row p ys)
  unfolding exists_row
  exists_row-++ p [] ys = refl
  exists_row-++ p (x ∷ xs) ys = rw (exists_row-++ p xs ys) (ground arith)

  pub exists-left :
      (p : A → Bool) (xs ys : List A) → exists_row p xs ≡ true → exists_row p (xs ++ ys) ≡ true
  exists-left p xs ys h = rw (exists_row-++ p xs ys) (ground arith)

  -- No two rows have one key.
  abbrev pub Distinct : (A → A → Bool) → List A → Type 0
  Distinct same [] = Unit
  Distinct same (x ∷ rows) = (exists_row (same x) rows ≡ false) × Distinct same rows

  pub Distinct-append :
      (same : A → A → Bool) (k : IsKey same) (rows : List A) (y : A)
      → exists_row (same y) rows ≡ false
      → Distinct same rows
      → Distinct same (rows ++ (y ∷ []))
  unfolding exists_row
  Distinct-append same k [] y new h = (refl, tt)
  Distinct-append same k (x ∷ rows) y new h =
      let other : same x y ≡ false = k.symmetric x y ∙ ground arith in
      (
        exists_row-++ (same x) rows (y ∷ []) ∙ rw (h.0, other),
        Distinct-append same k rows y (ground arith) h.1,
      )

  -- An update that leaves the key.
  pub Distinct-update_rows :
      (same : A → A → Bool) (q : A → Bool) (f : A → A) (rows : List A)
      → ((x y : A) → same x (f y) ≡ same x y)
      → ((x y : A) → same (f x) y ≡ same x y)
      → Distinct same rows
      → Distinct same (update_rows q f rows)
  unfolding update_rows
  Distinct-update_rows same q f [] right left h = tt
  Distinct-update_rows same q f (x ∷ rows) right left h = elim (Bool-cases (q x)) [
    | inl hit ↦
        rw hit (kept (f x) (λ y. left x y), Distinct-update_rows same q f rows right left h.1)
    | inr miss ↦ rw miss (kept x (λ y. refl), Distinct-update_rows same q f rows right left h.1)
  ]
    where
      kept :
          (z : A)
          → ((y : A) → same z y ≡ same x y)
          → exists_row (same z) (update_rows q f rows) ≡ false
      kept z e =
          exists_row-update_rows (same z) q f rows (right z)
          ∙ ap (λ p. exists_row p rows) (fun_ext e)
          ∙ h.0

  none_deleted :
      (p q : A → Bool) (rows : List A)
      → exists_row p rows ≡ false
      → exists_row p (delete_rows q rows) ≡ false
  unfolding exists_row delete_rows
  none_deleted p q [] h = refl
  none_deleted p q (x ∷ rows) h = ground (arith, none_deleted p q rows (ground arith))

  pub Distinct-delete_rows :
      (same : A → A → Bool) (q : A → Bool) (rows : List A)
      → Distinct same rows
      → Distinct same (delete_rows q rows)
  unfolding delete_rows
  Distinct-delete_rows same q [] h = tt
  Distinct-delete_rows same q (x ∷ rows) h = elim (Bool-cases (q x)) [
    | inl hit ↦ rw hit (Distinct-delete_rows same q rows h.1)
    | inr miss ↦ rw miss (none_deleted (same x) q rows h.0, Distinct-delete_rows same q rows h.1)
  ]

  -- None of the rows behind has a key of the rows in front.
  abbrev pub Apart : (A → A → Bool) → List A → List A → Type 0
  Apart same xs ys = All (λ y. exists_row (same y) xs ≡ false) ys

  pub Apart-tail :
      (same : A → A → Bool) (x : A) (xs ys : List A) → Apart same (x ∷ xs) ys → Apart same xs ys
  unfolding exists_row
  Apart-tail same x xs [] h = tt
  Apart-tail same x xs (y ∷ ys) h = (ground arith, Apart-tail same x xs ys h.1)

  pub Apart-head :
      (same : A → A → Bool) (k : IsKey same) (x : A) (xs ys : List A)
      → Apart same (x ∷ xs) ys
      → exists_row (same x) ys ≡ false
  unfolding exists_row
  Apart-head same k x xs [] h = refl
  Apart-head same k x xs (y ∷ ys) h =
      let here : same y x ≡ false = ground arith in
      rw (k.symmetric x y ∙ here, Apart-head same k x xs ys h.1)

  pub Distinct-++ :
      (same : A → A → Bool) (k : IsKey same) (xs ys : List A)
      → Distinct same xs
      → Distinct same ys
      → Apart same xs ys
      → Distinct same (xs ++ ys)
  Distinct-++ same k [] ys h g apart = g
  Distinct-++ same k (x ∷ xs) ys h g apart = (
    exists_row-++ (same x) xs ys ∙ rw (h.0, Apart-head same k x xs ys apart),
    Distinct-++ same k xs ys h.1 g (Apart-tail same x xs ys apart),
  )
