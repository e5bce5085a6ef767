-- ===== src/Shared/Sort.antt =====
-- `ORDER BY` and `sorted`: a stable insertion sort, and the order of texts by code points.
use Prim.Native.Nat.{Ordering}
use Prim.Native.String.{compare}
use bitcoin_trading_strategy.Shared.{
  String, ◌≡◌, refl, Bool, true, false, List, [], ◌∷◌, map, arith, All, length, suc, if◌then◌else◌,
}

-- The order of SQLite's BINARY collation and of Python's `str`.
abbrev pub text_leb : String → String → Bool
text_leb s t = elim (compare s t) [ Ordering.gt ↦ false | _ ↦ true ]

module _ {ℓ} {A : Type ℓ} (leb : A → A → Bool) where
  unfoldable pub insert_by : A → List A → List A
  insert_by x [] = x ∷ []
  insert_by x (y ∷ ys) = if leb x y then x ∷ y ∷ ys else y ∷ insert_by x ys

  unfoldable pub sort_by : List A → List A
  unfolding insert_by
  sort_by [] = []
  sort_by (x ∷ xs) = insert_by x (sort_by xs)

  length-insert_by : (x : A) (ys : List A) → length (insert_by x ys) ≡ suc (length ys)
  unfolding insert_by
  length-insert_by x [] = refl
  length-insert_by x (y ∷ ys) = ground (arith, length-insert_by x ys)

  pub length-sort_by : (xs : List A) → length (sort_by xs) ≡ length xs
  unfolding sort_by
  length-sort_by [] = refl
  length-sort_by (x ∷ xs) = omega (arith, length-insert_by x (sort_by xs), length-sort_by xs)

  All-insert_by {κ} :
      (P : A → Type κ) (x : A) (ys : List A) → P x → All P ys → All P (insert_by x ys)
  unfolding insert_by
  All-insert_by P x [] p h = (p, tt)
  All-insert_by P x (y ∷ ys) p h = ground (arith, All-insert_by P x ys p h.1)

  pub All-sort_by {κ} : (P : A → Type κ) (xs : List A) → All P xs → All P (sort_by xs)
  unfolding sort_by
  All-sort_by P [] h = h
  All-sort_by P (x ∷ xs) h = All-insert_by P x (sort_by xs) h.0 (All-sort_by P xs h.1)

  All-insert_by_inv {κ} :
      (P : A → Type κ) (x : A) (ys : List A) → All P (insert_by x ys) → P x × All P ys
  unfolding insert_by
  All-insert_by_inv P x [] h = h
  All-insert_by_inv P x (y ∷ ys) h = ground (arith, All-insert_by_inv P x ys)

  -- What holds of all sorted rows holds of all rows.
  pub All-sort_by_inv {κ} : (P : A → Type κ) (xs : List A) → All P (sort_by xs) → All P xs
  unfolding sort_by
  All-sort_by_inv P [] h = h
  All-sort_by_inv P (x ∷ xs) h =
      let (p, rest) = All-insert_by_inv P x (sort_by xs) h in (p, All-sort_by_inv P xs rest)

module _ {A : Type 0} (leb : A → A → Bool) (g : A → A)
    (same : (x y : A) → leb (g x) (g y) ≡ leb x y) where
  insert_by-map :
      (x : A) (ys : List A) → insert_by leb (g x) (map g ys) ≡ map g (insert_by leb x ys)
  unfolding insert_by
  insert_by-map x [] = refl
  insert_by-map x (y ∷ ys) = ground (arith, same x y, insert_by-map x ys)

  -- A change that does not touch what the rows are sorted by.
  pub sort_by-map : (xs : List A) → sort_by leb (map g xs) ≡ map g (sort_by leb xs)
  unfolding sort_by
  sort_by-map [] = refl
  sort_by-map (x ∷ xs) = rw (sort_by-map xs) (insert_by-map x (sort_by leb xs))
