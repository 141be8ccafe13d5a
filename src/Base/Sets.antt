-- ===== src/Base/Sets.antt =====
-- Python's `set` of hashable values, as a list without repetition.
use mathlib.Core.Path.{◌≡◌}
use mathlib.Core.Bool.{Bool, true, false}
use mathlib.Core.List.{List, [], ◌∷◌, ◌++◌}
use native.Mathlib.Omega.{arith}
use edge_weapon_detection_pl.Base.Tests.{if◌then◌else◌}
use edge_weapon_detection_pl.Base.Eq.{Equality, ◌==◌}

module _ {ℓ} {A : Type ℓ} ⦃e : Equality A⦄ where
  -- a in s
  unfoldable pub contains : List A → A → Bool
  contains [] a = false
  contains (x ∷ xs) a = if x == a then true else contains xs a

  -- s.add(a)
  unfoldable pub add : List A → A → List A
  add s a = if contains s a then s else s ++ a ∷ []

  -- s.discard(a)
  unfoldable pub discard : List A → A → List A
  discard [] a = []
  discard (x ∷ xs) a = let rest = discard xs a in if x == a then rest else x ∷ rest

  contains-append :
      (xs : List A) (a b : A) → contains (xs ++ a ∷ []) b ≡ (if contains xs b then true else a == b)
  unfolding contains
  contains-append [] a b = ground arith
  contains-append (x ∷ xs) a b = ground (arith, contains-append xs a b)

  pub contains-add :
      (s : List A) (a b : A) → contains (add s a) b ≡ (if a == b then true else contains s b)
  unfolding add
  contains-add s a b = ground (arith, contains-append s a b, e.same_iff a b)

  pub contains-discard :
      (s : List A) (a b : A) → contains (discard s a) b ≡ (if a == b then false else contains s b)
  unfolding contains discard
  contains-discard [] a b = ground arith
  contains-discard (x ∷ xs) a b =
      ground (arith, e.same_iff x a, e.same_iff x b, e.same_iff a b, contains-discard xs a b)
