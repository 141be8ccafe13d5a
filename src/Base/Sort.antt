-- ===== src/Base/Sort.antt =====
-- `SELECT … WHERE query ORDER BY … LIMIT n`: the rows that pass, in an order, and the first of them.
use Prim.Native.Nat.{ℕ, zero, suc, ◌+◌}
use mathlib.Core.Path.{◌≡◌, refl, ap, ◌∙◌}
use mathlib.Core.Logic.{◌⊎◌, inl, inr}
use mathlib.Core.Bool.{Bool, true, false, ◌&&◌}
use mathlib.Core.List.{List, [], ◌∷◌, ◌++◌}
use native.Mathlib.Omega.{arith}
use edge_weapon_detection_pl.Base.Tests.{if◌then◌else◌, Bool-cases}
use edge_weapon_detection_pl.Base.Lists.{length, take, drop, keep}
use edge_weapon_detection_pl.Base.Rows.{count_rows, update_rows}

module _ {ℓ} {A : Type ℓ} where
  count-keep :
      (query test : A → Bool) (rows : List A)
      → count_rows test (keep query rows) ≡ count_rows (λ r. query r && test r) rows
  count-keep query test [] = refl
  count-keep query test (r ∷ rs) = ground (arith, count-keep query test rs)

  take-append-drop : (n : ℕ) (rs : List A) → take n rs ++ drop n rs ≡ rs
  take-append-drop zero rs = refl
  take-append-drop (suc n) [] = refl
  take-append-drop (suc n) (r ∷ rs) = ap (λ t. r ∷ t) (take-append-drop n rs)

  full_or_all : (n : ℕ) (rs : List A) → (drop n rs ≡ []) ⊎ (length (take n rs) ≡ n)
  full_or_all zero rs = inr refl
  full_or_all (suc n) [] = inl refl
  full_or_all (suc n) (r ∷ rs) = elim (full_or_all n rs) [
    | inl none_left ↦ inl none_left
    | inr full ↦ inr (ap suc full)
  ]

-- `before a b` says that `a` may stand before `b`.
module _ {ℓ} {A : Type ℓ} (before : A → A → Bool) where
  unfoldable pub insert_sorted : A → List A → List A
  insert_sorted row [] = row ∷ []
  insert_sorted row (r ∷ rs) =
      let later = insert_sorted row rs in if before row r then row ∷ r ∷ rs else r ∷ later

  unfoldable pub sort_rows : List A → List A
  unfolding insert_sorted
  sort_rows [] = []
  sort_rows (row ∷ rows) = insert_sorted row (sort_rows rows)

  unfoldable pub select_rows : (A → Bool) → List A → ℕ → List A
  unfolding sort_rows
  select_rows query rows limit = take limit (sort_rows (keep query rows))

  abbrev pub AllAfter : A → List A → Type 0
  AllAfter row [] = Unit
  AllAfter row (r ∷ rs) = (before row r ≡ true) × AllAfter row rs

  -- Every row stands before all that are later.
  abbrev pub IsSorted : List A → Type 0
  IsSorted [] = Unit
  IsSorted (r ∷ rs) = AllAfter r rs × IsSorted rs

module _ {ℓ} {A : Type ℓ} (before : A → A → Bool)
    (before_trans : (a b c : A) → before a b ≡ true → before b c ≡ true → before a c ≡ true)
    (before_total : (a b : A) → before a b ≡ false → before b a ≡ true) where
  AllAfter-trans :
      (a b : A) (rs : List A) → before a b ≡ true → AllAfter before b rs → AllAfter before a rs
  AllAfter-trans a b [] p h = tt
  AllAfter-trans a b (r ∷ rs) p h = (before_trans a b r p h.0, AllAfter-trans a b rs p h.1)

  AllAfter-insert_sorted :
      (a row : A) (rs : List A)
      → before a row ≡ true
      → AllAfter before a rs
      → AllAfter before a (insert_sorted before row rs)
  unfolding insert_sorted
  AllAfter-insert_sorted a row [] p h = (p, tt)
  AllAfter-insert_sorted a row (r ∷ rs) p h = elim (Bool-cases (before row r)) [
    | inl before ↦ rw before (p, h)
    | inr after ↦ rw after (h.0, AllAfter-insert_sorted a row rs p h.1)
  ]

  insert_sorted-IsSorted :
      (row : A) (rs : List A) → IsSorted before rs → IsSorted before (insert_sorted before row rs)
  unfolding insert_sorted
  insert_sorted-IsSorted row [] h = (tt, tt)
  insert_sorted-IsSorted row (r ∷ rs) h = elim (Bool-cases (before row r)) [
    | inl before ↦ rw before ((before, AllAfter-trans row r rs before h.0), h)
    | inr after ↦ rw after (
      AllAfter-insert_sorted r row rs (before_total row r after) h.0,
      insert_sorted-IsSorted row rs h.1,
    )
  ]

  sort_rows-IsSorted : (rows : List A) → IsSorted before (sort_rows before rows)
  unfolding sort_rows
  sort_rows-IsSorted [] = tt
  sort_rows-IsSorted (r ∷ rs) =
      insert_sorted-IsSorted r (sort_rows before rs) (sort_rows-IsSorted rs)

  count-insert_sorted :
      (test : A → Bool) (row : A) (rs : List A)
      → count_rows test (insert_sorted before row rs)
        ≡ (if test row then 1 else 0) + count_rows test rs
  unfolding insert_sorted
  count-insert_sorted test row [] = refl
  count-insert_sorted test row (r ∷ rs) = ground (arith, count-insert_sorted test row rs)

  count-sort_rows :
      (test : A → Bool) (rows : List A)
      → count_rows test (sort_rows before rows) ≡ count_rows test rows
  unfolding sort_rows
  count-sort_rows test [] = refl
  count-sort_rows test (r ∷ rs) =
      count-insert_sorted test r (sort_rows before rs)
      ∙ ap (λ (n : ℕ). (if test r then 1 else 0) + n) (count-sort_rows test rs)

  -- What is selected, and the rest that is left for later, are the rows that the query finds, each as often as it
  -- is stored, from the oldest on; a rest is left only if the limit is reached.
  pub select_rows_lem :
      (query : A → Bool) (table : List A) (limit : ℕ)
      → (rest : List A) × IsSorted before (select_rows before query table limit ++ rest)
        × ((test : A → Bool)
            → count_rows test (select_rows before query table limit ++ rest)
              ≡ count_rows (λ r. query r && test r) table)
        × ((rest ≡ []) ⊎ (length (select_rows before query table limit) ≡ limit))
  unfolding select_rows
  select_rows_lem query table limit =
      let rows = sort_rows before (keep query table) in
      (
        drop limit rows,
        rw (take-append-drop limit rows) (sort_rows-IsSorted (keep query table)),
        (λ test.
            rw (take-append-drop limit rows)
              (count-sort_rows test (keep query table) ∙ count-keep query test table)),
        full_or_all limit rows,
      )

-- An update that neither the query nor the order sees changes the rows where they stand.
module _ {ℓ} {A : Type ℓ} (before : A → A → Bool) (query : A → Bool) (change : A → A)
    (query_same : (a : A) → query (change a) ≡ query a)
    (left_same : (a b : A) → before (change a) b ≡ before a b)
    (right_same : (a b : A) → before a (change b) ≡ before a b) where
  keep-update_rows :
      (test : A → Bool) (rows : List A)
      → keep query (update_rows test change rows) ≡ update_rows test change (keep query rows)
  keep-update_rows test [] = refl
  keep-update_rows test (r ∷ rs) = ground (arith, query_same r, keep-update_rows test rs)

  insert_sorted-update_rows :
      (test : A → Bool) (row : A) (rs : List A)
      → insert_sorted before (if test row then change row else row) (update_rows test change rs)
        ≡ update_rows test change (insert_sorted before row rs)
  unfolding insert_sorted
  insert_sorted-update_rows test row [] = refl
  insert_sorted-update_rows test row (r ∷ rs) = ground (
    arith,
    left_same row r,
    left_same row (change r),
    right_same row r,
    insert_sorted-update_rows test row rs,
  )

  sort_rows-update_rows :
      (test : A → Bool) (rows : List A)
      → sort_rows before (update_rows test change rows)
        ≡ update_rows test change (sort_rows before rows)
  unfolding sort_rows
  sort_rows-update_rows test [] = refl
  sort_rows-update_rows test (r ∷ rs) =
      ap (λ later. insert_sorted before (if test r then change r else r) later)
        (sort_rows-update_rows test rs)
      ∙ insert_sorted-update_rows test r (sort_rows before rs)

  take-update_rows :
      (test : A → Bool) (n : ℕ) (rows : List A)
      → take n (update_rows test change rows) ≡ update_rows test change (take n rows)
  take-update_rows test zero rows = refl
  take-update_rows test (suc n) [] = refl
  take-update_rows test (suc n) (r ∷ rs) =
      ap (λ later. (if test r then change r else r) ∷ later) (take-update_rows test n rs)

  pub select_rows-update_rows :
      (test : A → Bool) (table : List A) (limit : ℕ)
      → select_rows before query (update_rows test change table) limit
        ≡ update_rows test change (select_rows before query table limit)
  unfolding select_rows
  select_rows-update_rows test table limit =
      ap (λ rows. take limit (sort_rows before rows)) (keep-update_rows test table)
      ∙ ap (take limit) (sort_rows-update_rows test (keep query table))
      ∙ take-update_rows test limit (sort_rows before (keep query table))
