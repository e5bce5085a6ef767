-- ===== src/Shared/Table.antt =====
-- A SQL table with a text primary key, as the list of its rows in order of insertion.
use mathlib.Core.Path.{subst}
use mathlib.Core.Option
use bitcoin_trading_strategy.Shared.{
  String, str_eq, false, All-map, ◌≡◌, refl, Option, none, some, List, [], ◌∷◌, ◌++◌, arith,
  Bool-cases, inl, inr, eq_iff, eq_refl, All, if◌then◌else◌,
}

module _ {R : Type 0} (key : R → String) where
  -- `SELECT … WHERE key = k`, then `fetchone()`
  unfoldable pub find : String → List R → Option R
  find k [] = none
  find k (r ∷ rows) = if str_eq (key r) k then some r else find k rows

  -- `UPDATE … WHERE key = k`
  unfoldable pub update : String → (R → R) → List R → List R
  update k f [] = []
  update k f (r ∷ rows) = (if str_eq (key r) k then f r else r) ∷ update k f rows

  -- `del d[k]` of a dict, and nothing where there is no `k`.
  unfoldable pub delete : String → List R → List R
  delete k [] = []
  delete k (r ∷ rows) = let rest = delete k rows in if str_eq (key r) k then rest else r ∷ rest

  -- The primary key: no two rows share it.
  abbrev pub IsKeyed : List R → Type 0
  IsKeyed [] = Unit
  IsKeyed (r ∷ rows) = (find (key r) rows ≡ none) × IsKeyed rows

  pub find-append :
      (k : String) (r : R) (rows : List R)
      → find k rows ≡ none
      → find k (rows ++ r ∷ []) ≡ (if str_eq (key r) k then some r else none)
  unfolding find
  find-append k r [] h = refl
  find-append k r (x ∷ rows) h = ground (arith, find-append k r rows)

  pub find-append_old :
      (k : String) (r x : R) (rows : List R)
      → find k rows ≡ some x
      → find k (rows ++ r ∷ []) ≡ some x
  unfolding find
  find-append_old k r x [] h = cc
  find-append_old k r x (y ∷ rows) h = ground (arith, find-append_old k r x rows)

  pub find_new :
      (r : R) (rows : List R) → find (key r) rows ≡ none → find (key r) (rows ++ r ∷ []) ≡ some r
  find_new r rows h = ground (arith, find-append (key r) r rows, eq_iff (key r) (key r))

  pub find_other :
      (k : String) (r : R) (rows : List R)
      → str_eq (key r) k ≡ false
      → find k (rows ++ r ∷ []) ≡ find k rows
  unfolding find
  find_other k r [] h = ground arith
  find_other k r (x ∷ rows) h = ground (arith, find_other k r rows)

  pub find-insert :
      (j : String) (r : R) (rows : List R)
      → find (key r) rows ≡ none
      → find j (rows ++ r ∷ []) ≡ (if str_eq (key r) j then some r else find j rows)
  find-insert j r rows h = ground (arith, find_new r rows, find_other j r rows, eq_iff (key r) j)

  pub find-delete :
      (j k : String) (rows : List R)
      → find j (delete k rows) ≡ (if str_eq k j then none else find j rows)
  unfolding find delete
  find-delete j k [] = ground arith
  find-delete j k (x ∷ rows) =
      ground (arith, find-delete j k rows, eq_iff (key x) k, eq_iff (key x) j, eq_iff k j)

  pub key-find : (k : String) (r : R) (rows : List R) → find k rows ≡ some r → key r ≡ k
  unfolding find
  key-find k r [] h = cc
  key-find k r (x ∷ rows) h = ground (arith, key-find k r rows, eq_iff (key x) k)

  pub IsKeyed-append :
      (r : R) (rows : List R) → IsKeyed rows → find (key r) rows ≡ none → IsKeyed (rows ++ r ∷ [])
  unfolding find
  IsKeyed-append r [] h n = (refl, tt)
  IsKeyed-append r (x ∷ rows) h n = ground (
    arith,
    IsKeyed-append r rows h.1,
    find_other (key x) r rows,
    eq_iff (key x) (key r),
    eq_iff (key r) (key x),
  )

  find_tail :
      (x r : R) (rows : List R)
      → find (key x) rows ≡ none
      → find (key r) rows ≡ some r
      → find (key r) (x ∷ rows) ≡ some r
  unfolding find
  find_tail x r rows n h = ground (arith, eq_iff (key x) (key r))

  -- Every row is the one that its key finds.
  pub find_each : (rows : List R) → IsKeyed rows → All (λ r. find (key r) rows ≡ some r) rows
  unfolding find
  find_each [] h = tt
  find_each (x ∷ rows) h = (
    rw (eq_refl (key x)),
    All-map (λ r. find (key r) rows ≡ some r) (λ r. find (key r) (x ∷ rows) ≡ some r) rows
        (λ r e. find_tail x r rows h.0 e) (find_each rows h.1),
  )

  pub All-find {κ} :
      (P : R → Type κ) (k : String) (r : R) (rows : List R)
      → All P rows
      → find k rows ≡ some r
      → P r
  unfolding find
  All-find P k r [] a h = cc
  All-find P k r (x ∷ rows) a h = elim (Bool-cases (str_eq (key x) k)) [
    | inl hit ↦ (let same : x ≡ r = ground arith in subst P same a.0)
    | inr miss ↦ All-find P k r rows a.1 (rw miss at h)
  ]

  pub All-update {κ} :
      (P : R → Type κ) (k : String) (f : R → R) (rows : List R)
      → ((r : R) → P r → P (f r))
      → All P rows
      → All P (update k f rows)
  unfolding update
  All-update P k f [] step a = a
  All-update P k f (x ∷ rows) step a = (ground (arith, step x a.0), All-update P k f rows step a.1)

  module _ (f : R → R) (same_key : (r : R) → key (f r) ≡ key r) where
    pub find-update :
        (j k : String) (rows : List R)
        → find j (update k f rows)
          ≡ (if str_eq k j then Option.map f (find j rows) else find j rows)
    unfolding find update
    find-update j k [] = ground arith
    find-update j k (x ∷ rows) =
        ground
          (arith, find-update j k rows, same_key x, eq_iff (key x) k, eq_iff (key x) j, eq_iff k j)

    pub IsKeyed-update : (k : String) (rows : List R) → IsKeyed rows → IsKeyed (update k f rows)
    unfolding find update
    IsKeyed-update k [] h = h
    IsKeyed-update k (x ∷ rows) h =
        ground (arith, IsKeyed-update k rows h.1, find-update (key x) k rows, same_key x)
