-- ===== src/Base/Members.antt =====
-- Predicates on every element of a list, through the list operations that queries are made of.
use Prim.Native.Nat.{ℕ, zero, suc, ◌≤◌}
use mathlib.Core.Path.{◌≡◌, refl}
use mathlib.Core.Logic.{inl, inr}
use mathlib.Core.Bool.{Bool, true}
use mathlib.Core.List.{List, [], ◌∷◌}
use mathlib.Core.List.{Memᴰ}
use native.Mathlib.Omega.{arith}
use edge_weapon_detection_pl.Base.Tests.{Bool-cases}
use edge_weapon_detection_pl.Base.Lists.{All, length, take, keep}
use edge_weapon_detection_pl.Base.Sort.{insert_sorted, sort_rows, select_rows}

module _ {ℓ κ μ} {A : Type ℓ} where
  pub All-map :
      (P : A → Type κ) (Q : A → Type μ) (xs : List A) → ((x : A) → P x → Q x) → All P xs → All Q xs
  All-map P Q [] f h = tt
  All-map P Q (x ∷ xs) f h = (f x h.0, All-map P Q xs f h.1)

module _ {ℓ} {A : Type ℓ} where
  -- Every element of a list is a member of it.
  pub All-Memᴰ : (xs : List A) → All (λ x. Memᴰ x xs) xs
  All-Memᴰ [] = tt
  All-Memᴰ (x ∷ xs) = (
    Memᴰ.head refl,
    All-map (λ a. Memᴰ a xs) (λ a. Memᴰ a (x ∷ xs)) xs (λ a m. Memᴰ.tail m) (All-Memᴰ xs),
  )

  pub length-keep : (test : A → Bool) (xs : List A) → length (keep test xs) ≤ length xs
  length-keep test [] = omega arith
  length-keep test (x ∷ xs) = ground (arith, length-keep test xs)

module _ {ℓ κ} {A : Type ℓ} (P : A → Type κ) where
  pub All-keep :
      (test : A → Bool) (xs : List A) → All P xs → All (λ x. P x × (test x ≡ true)) (keep test xs)
  All-keep test [] h = tt
  All-keep test (x ∷ xs) h = elim (Bool-cases (test x)) [
    | inl kept ↦ rw kept ((h.0, kept), All-keep test xs h.1)
    | inr left ↦ rw left (All-keep test xs h.1)
  ]

  All-take : (n : ℕ) (xs : List A) → All P xs → All P (take n xs)
  All-take zero xs h = tt
  All-take (suc n) [] h = tt
  All-take (suc n) (x ∷ xs) h = (h.0, All-take n xs h.1)

  All-insert_sorted :
      (before : A → A → Bool) (x : A) (xs : List A)
      → P x
      → All P xs
      → All P (insert_sorted before x xs)
  unfolding insert_sorted
  All-insert_sorted before x [] p h = (p, tt)
  All-insert_sorted before x (y ∷ ys) p h = elim (Bool-cases (before x y)) [
    | inl first ↦ rw first (p, h)
    | inr later ↦ rw later (h.0, All-insert_sorted before x ys p h.1)
  ]

  All-sort_rows : (before : A → A → Bool) (xs : List A) → All P xs → All P (sort_rows before xs)
  unfolding sort_rows
  All-sort_rows before [] h = tt
  All-sort_rows before (x ∷ xs) h =
      All-insert_sorted before x (sort_rows before xs) h.0 (All-sort_rows before xs h.1)

module _ {ℓ κ} {A : Type ℓ} (P : A → Type κ) where
  -- What a query gives are rows of the table that it finds.
  pub All-select_rows :
      (before : A → A → Bool) (query : A → Bool) (table : List A) (limit : ℕ)
      → All P table
      → All (λ r. P r × (query r ≡ true)) (select_rows before query table limit)
  unfolding select_rows
  All-select_rows before query table limit h =
      All-take (λ r. P r × (query r ≡ true)) limit (sort_rows before (keep query table))
        (All-sort_rows (λ r. P r × (query r ≡ true)) before (keep query table)
          (All-keep P query table h))
