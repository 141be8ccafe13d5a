-- ===== src/Base/Rows.antt =====
-- The rows of a table, in the order of their insertion, and what SQL statements do to them.
use Prim.Native.Nat.{ℕ, ◌+◌}
use mathlib.Core.Path.{◌≡◌, refl}
use mathlib.Core.Bool.{Bool, true, false}
use mathlib.Core.Option.{Option, none, some}
use mathlib.Core.List.{List, [], ◌∷◌, ◌++◌}
use native.Mathlib.Omega.{arith}
use edge_weapon_detection_pl.Base.Tests.{if◌then◌else◌}
use edge_weapon_detection_pl.Base.Lists.{any}

module _ {ℓ} {A : Type ℓ} where
  -- UPDATE … WHERE test
  abbrev pub update_rows : (A → Bool) → (A → A) → List A → List A
  update_rows test change [] = []
  update_rows test change (row ∷ rows) =
      (if test row then change row else row) ∷ update_rows test change rows

  -- cursor.rowcount, and SELECT COUNT(*) … WHERE test
  abbrev pub count_rows : (A → Bool) → List A → ℕ
  count_rows test [] = 0
  count_rows test (row ∷ rows) = (if test row then 1 else 0) + count_rows test rows

  -- SELECT … WHERE test, fetchone()
  abbrev pub first : (A → Bool) → List A → Option A
  first test [] = none
  first test (row ∷ rows) = if test row then some row else first test rows

  pub first-any : (test : A → Bool) (rows : List A) → any test rows ≡ false → first test rows ≡ none
  first-any test [] h = refl
  first-any test (row ∷ rows) h = ground (arith, first-any test rows)

  pub first-append :
      (test : A → Bool) (rows : List A) (row : A)
      → first test (rows ++ row ∷ [])
        ≡ (elim (first test rows) [ none ↦ if test row then some row else none | some r ↦ some r ])
  first-append test [] row = ground arith
  first-append test (r ∷ rows) row = ground (arith, first-append test rows row)

  -- An update that keeps what the query looks for.
  pub first-update_rows :
      (query test : A → Bool) (change : A → A) (rows : List A)
      → ((row : A) → query (change row) ≡ query row)
      → first query (update_rows test change rows)
        ≡ (elim (first query rows) [ none ↦ none | some r ↦ some (if test r then change r else r) ])
  first-update_rows query test change [] keeps = refl
  first-update_rows query test change (r ∷ rows) keeps =
      ground (arith, keeps r, first-update_rows query test change rows keeps)

  pub count-append :
      (test : A → Bool) (rows : List A) (row : A)
      → count_rows test (rows ++ row ∷ []) ≡ count_rows test rows + (if test row then 1 else 0)
  count-append test [] row = ground arith
  count-append test (r ∷ rows) row = ground (arith, count-append test rows row)

  pub count-join :
      (test : A → Bool) (rows others : List A)
      → count_rows test (rows ++ others) ≡ count_rows test rows + count_rows test others
  count-join test [] others = omega arith
  count-join test (r ∷ rows) others = ground (arith, count-join test rows others)

  pub count-any :
      (test : A → Bool) (rows : List A) → any test rows ≡ false → count_rows test rows ≡ 0
  count-any test [] h = refl
  count-any test (r ∷ rows) h = ground (arith, count-any test rows)

  pub count-update_rows :
      (query test : A → Bool) (change : A → A) (rows : List A)
      → ((row : A) → query (change row) ≡ query row)
      → count_rows query (update_rows test change rows) ≡ count_rows query rows
  count-update_rows query test change [] keeps = refl
  count-update_rows query test change (r ∷ rows) keeps =
      ground (arith, keeps r, count-update_rows query test change rows keeps)

  pub test-first :
      (test : A → Bool) (rows : List A) {r : A} → first test rows ≡ some r → test r ≡ true
  test-first test [] h = cc
  test-first test (row ∷ rows) {r} h = ground (arith, test-first test rows {r = r})
