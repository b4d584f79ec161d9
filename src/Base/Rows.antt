-- ===== src/Base/Rows.antt =====
-- Tables as lists of rows: the SQL statements of the crud modules filter, update and count rows.
use Prim.Native.Nat.{ℕ, zero, suc}
use mathlib.Core.Path.{◌≡◌, refl}
use mathlib.Core.Bool.{Bool, true, false, ◌||◌}
use mathlib.Core.Option.{Option, none, some}
use mathlib.Core.List.{List, [], ◌∷◌, ◌++◌, map}
use native.Mathlib.Omega.{arith}
use bank_transaction_system.Base.Compare.{if◌then◌else◌, Bool-cases}
use mathlib.Core.Logic.{inl, inr}

module _ {ℓ} {A : Type ℓ} where
  abbrev pub length : List A → ℕ
  length [] = 0
  length (x ∷ xs) = suc (length xs)

  -- `SELECT ... WHERE p`
  unfoldable pub select : (A → Bool) → List A → List A
  select p [] = []
  select p (x ∷ xs) = let rest = select p xs in if p x then x ∷ rest else rest

  -- the first row with `p`; a join on a primary key
  unfoldable pub find : (A → Bool) → List A → Option A
  find p [] = none
  find p (x ∷ xs) = if p x then some x else find p xs

  -- `EXISTS (SELECT 1 ... WHERE p)`
  unfoldable pub exists_row : (A → Bool) → List A → Bool
  exists_row p [] = false
  exists_row p (x ∷ xs) = p x || exists_row p xs

  -- `UPDATE ... SET f WHERE p`
  unfoldable pub update_rows : (A → Bool) → (A → A) → List A → List A
  update_rows p f [] = []
  update_rows p f (x ∷ xs) = (if p x then f x else x) ∷ update_rows p f xs

  -- `DELETE ... WHERE p`
  unfoldable pub delete_rows : (A → Bool) → List A → List A
  delete_rows p [] = []
  delete_rows p (x ∷ xs) = let rest = delete_rows p xs in if p x then rest else x ∷ rest

  abbrev pub All {κ} : (A → Type κ) → List A → Type κ
  All P [] = Unit
  All P (x ∷ xs) = P x × All P xs

  abbrev pub take : ℕ → List A → List A
  take zero xs = []
  take (suc n) [] = []
  take (suc n) (x ∷ xs) = x ∷ take n xs

  abbrev pub drop : ℕ → List A → List A
  drop zero xs = xs
  drop (suc n) [] = []
  drop (suc n) (x ∷ xs) = drop n xs

  pub All-append {κ} : (P : A → Type κ) (xs ys : List A) → All P xs → All P ys → All P (xs ++ ys)
  All-append P [] ys h k = k
  All-append P (x ∷ xs) ys h k = (h.0, All-append P xs ys h.1 k)

  if-holds {κ} : (P : A → Type κ) (b : Bool) (x y : A) → P x → P y → P (if b then x else y)
  if-holds P true x y h k = h
  if-holds P false x y h k = k

  pub All-update_rows {κ} :
      (P : A → Type κ) (p : A → Bool) (f : A → A) (xs : List A)
      → ((x : A) → P x → P (f x))
      → All P xs
      → All P (update_rows p f xs)
  unfolding update_rows
  All-update_rows P p f [] k h = tt
  All-update_rows P p f (x ∷ xs) k h =
      (if-holds P (p x) (f x) x (k x h.0) h.0, All-update_rows P p f xs k h.1)

  -- An update that keeps what `q` reads keeps which rows there are.
  pub exists_row-update_rows :
      (q p : A → Bool) (f : A → A) (xs : List A)
      → ((x : A) → q (f x) ≡ q x)
      → exists_row q (update_rows p f xs) ≡ exists_row q xs
  unfolding exists_row update_rows
  exists_row-update_rows q p f [] k = refl
  exists_row-update_rows q p f (x ∷ xs) k = ground (arith, k x, exists_row-update_rows q p f xs k)

  -- The first row that a query gives has what it asks for, and stands in the table.
  pub select_first :
      (p : A → Bool) (xs : List A) {x : A} {rest : List A} → select p xs ≡ x ∷ rest → p x ≡ true
  unfolding select
  select_first p [] e = cc
  select_first p (y ∷ xs) e = elim (Bool-cases (p y)) [
    | inl kept ↦ ground (arith, e, kept)
    | inr dropped ↦ select_first p xs (rw dropped at e)
  ]

  pub select_first_exists :
      (p q : A → Bool) (xs : List A) {x : A} {rest : List A}
      → select p xs ≡ x ∷ rest
      → q x ≡ true
      → exists_row q xs ≡ true
  unfolding select exists_row
  select_first_exists p q [] e h = cc
  select_first_exists p q (y ∷ xs) e h = elim (Bool-cases (p y)) [
    | inl kept ↦ ground (arith, e, kept)
    | inr dropped ↦ ground (arith, select_first_exists p q xs (rw dropped at e) h)
  ]

  pub find_holds : (p : A → Bool) (xs : List A) {x : A} → find p xs ≡ some x → p x ≡ true
  unfolding find
  find_holds p [] e = cc
  find_holds p (y ∷ xs) e = elim (Bool-cases (p y)) [
    | inl kept ↦ ground (arith, e, kept)
    | inr dropped ↦ find_holds p xs (rw dropped at e)
  ]

  pub find_exists :
      (p q : A → Bool) (xs : List A) {x : A}
      → find p xs ≡ some x
      → q x ≡ true
      → exists_row q xs ≡ true
  unfolding find exists_row
  find_exists p q [] e h = cc
  find_exists p q (y ∷ xs) e h = elim (Bool-cases (p y)) [
    | inl kept ↦ ground (arith, e, kept)
    | inr dropped ↦ ground (arith, find_exists p q xs (rw dropped at e) h)
  ]

  -- Where one row only has `p`, a stronger test fails on the table if it fails on that row.
  pub exists_row-none :
      (p q : A → Bool) (xs : List A)
      → ((x : A) → q x ≡ true → p x ≡ true)
      → select p xs ≡ []
      → exists_row q xs ≡ false
  unfolding select exists_row
  exists_row-none p q [] k e = refl
  exists_row-none p q (x ∷ xs) k e = elim (Bool-cases (p x)) [
    | inl kept ↦ ground (arith, e, kept)
    | inr dropped ↦ ground (arith, k x, exists_row-none p q xs k (rw dropped at e))
  ]

  pub exists_row-one :
      (p q : A → Bool) (xs : List A) (x : A)
      → ((y : A) → q y ≡ true → p y ≡ true)
      → select p xs ≡ x ∷ []
      → exists_row q xs ≡ q x
  unfolding select exists_row
  exists_row-one p q [] x k e = cc
  exists_row-one p q (y ∷ xs) x k e = elim (Bool-cases (p y)) [
    | inl kept ↦ ground (arith, e, kept, exists_row-none p q xs k)
    | inr dropped ↦ ground (arith, k y, exists_row-one p q xs x k (rw dropped at e))
  ]

  -- An update that keeps what `p` reads, seen through `p`.
  pub select-update_rows :
      (p q : A → Bool) (f : A → A) (xs : List A)
      → ((x : A) → p (f x) ≡ p x)
      → select p (update_rows q f xs) ≡ update_rows q f (select p xs)
  unfolding select update_rows
  select-update_rows p q f [] k = refl
  select-update_rows p q f (x ∷ xs) k = ground (arith, k x, select-update_rows p q f xs k)

  pub select-append :
      (p : A → Bool) (xs ys : List A) → select p (xs ++ ys) ≡ select p xs ++ select p ys
  unfolding select
  select-append p [] ys = refl
  select-append p (x ∷ xs) ys = ground (arith, select-append p xs ys)

  -- An update that makes `q` true, where it was true of no row.
  pub select-updated :
      (p q : A → Bool) (f : A → A) (xs : List A)
      → ((x : A) → q (f x) ≡ true)
      → exists_row q xs ≡ false
      → select q (update_rows p f xs) ≡ map f (select p xs)
  unfolding select update_rows exists_row
  select-updated p q f [] k e = refl
  select-updated p q f (x ∷ xs) k e = ground (arith, k x, select-updated p q f xs k)

  pub select-delete_rows :
      (p q : A → Bool) (xs : List A) → select q (delete_rows p xs) ≡ delete_rows p (select q xs)
  unfolding select delete_rows
  select-delete_rows p q [] = refl
  select-delete_rows p q (x ∷ xs) = ground (arith, select-delete_rows p q xs)

  pub select-none : (p : A → Bool) (xs : List A) → exists_row p xs ≡ false → select p xs ≡ []
  unfolding select exists_row
  select-none p [] e = refl
  select-none p (x ∷ xs) e = ground (arith, select-none p xs)
