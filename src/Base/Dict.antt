-- ===== src/Base/Dict.antt =====
-- Python's `dict` as an association list: a write replaces in place, a new key goes to the end.
use Prim.Native.Nat.{suc, ◌≤◌}
use mathlib.Core.Path.{◌≡◌, refl, sym, subst}
use mathlib.Core.Logic.{inl, inr}
use mathlib.Core.Option.{Option, none, some}
use mathlib.Core.List.{List, [], ◌∷◌}
use native.Mathlib.Omega.{arith}
use edge_weapon_detection_pl.Base.Tests.{if◌then◌else◌, Bool-cases}
use edge_weapon_detection_pl.Base.Lists.{All, length}
use edge_weapon_detection_pl.Base.Eq.{Equality, ◌==◌, eq_of_beq}

abbrev pub Dict {ℓ κ} : Type ℓ → Type κ → Type (ℓ ⊔ κ)
Dict K V = List (K × V)

module _ {ℓ κ} {K : Type ℓ} {V : Type κ} where
  abbrev pub keys : Dict K V → List K
  keys [] = []
  keys ((j, v) ∷ d) = j ∷ keys d

module _ {ℓ κ} {K : Type ℓ} {V : Type κ} ⦃e : Equality K⦄ where
  -- d.get(k)
  unfoldable pub get : Dict K V → K → Option V
  get [] k = none
  get ((j, v) ∷ d) k = if j == k then some v else get d k

  -- d[k] = v
  unfoldable pub put : Dict K V → K → V → Dict K V
  put [] k v = (k, v) ∷ []
  put ((j, w) ∷ d) k v = let rest = put d k v in if j == k then (j, v) ∷ d else (j, w) ∷ rest

  -- d.pop(k, None)
  unfoldable pub pop : Dict K V → K → Dict K V
  pop [] k = []
  pop ((j, w) ∷ d) k = let rest = pop d k in if j == k then rest else (j, w) ∷ rest

  pub get-put :
      (d : Dict K V) (k : K) (v : V) (j : K)
      → get (put d k v) j ≡ (if k == j then some v else get d j)
  unfolding get put
  get-put [] k v j = refl
  get-put ((i, w) ∷ d) k v j =
      ground (arith, e.same_iff k j, e.same_iff i k, e.same_iff i j, get-put d k v j)

  pub get-pop : (d : Dict K V) (k j : K) → get (pop d k) j ≡ (if k == j then none else get d j)
  unfolding get pop
  get-pop [] k j = ground arith
  get-pop ((i, w) ∷ d) k j =
      ground (arith, e.same_iff k j, e.same_iff i k, e.same_iff i j, get-pop d k j)

  pub length-pop : (d : Dict K V) (k : K) → length (pop d k) ≤ length d
  unfolding pop
  length-pop [] k = omega arith
  length-pop ((i, w) ∷ d) k = ground (arith, length-pop d k)

  pub length-put : (d : Dict K V) (k : K) (v : V) → length (put d k v) ≤ suc (length d)
  unfolding put
  length-put [] k v = omega arith
  length-put ((i, w) ∷ d) k v = ground (arith, length-put d k v)

  -- A key that is there is replaced in its place.
  pub length-put_there :
      (d : Dict K V) (k : K) (v : V) {w : V} → get d k ≡ some w → length (put d k v) ≡ length d
  unfolding get put
  length-put_there [] k v h = cc
  length-put_there ((i, u) ∷ d) k v {w} h = ground (arith, length-put_there d k v {w = w})

  pub length-pop_there :
      (d : Dict K V) (k : K) {w : V} → get d k ≡ some w → suc (length (pop d k)) ≤ length d
  unfolding get pop
  length-pop_there [] k h = cc
  length-pop_there ((i, u) ∷ d) k {w} h =
      ground (arith, length-pop d k, length-pop_there d k {w = w})

  -- What is written under a key that is then removed is gone with it.
  pub pop-put : (d : Dict K V) (k : K) (v : V) → pop (put d k v) k ≡ pop d k
  unfolding put pop
  pop-put [] k v = ground (arith, e.same_iff k k)
  pop-put ((i, w) ∷ d) k v = ground (arith, e.same_iff i k, pop-put d k v)

-- A predicate on the entries of a dictionary.
module _ {ℓ κ μ} {K : Type ℓ} {V : Type κ} ⦃e : Equality K⦄ (P : K × V → Type μ) where
  pub All-pop : (d : Dict K V) (k : K) → All P d → All P (pop d k)
  unfolding pop
  All-pop [] k h = tt
  All-pop ((i, w) ∷ d) k h = elim (Bool-cases (i == k)) [
    | inl same ↦ rw same (All-pop d k h.1)
    | inr other ↦ rw other (h.0, All-pop d k h.1)
  ]

  pub All-put : (d : Dict K V) (k : K) (v : V) → P (k, v) → All P d → All P (put d k v)
  unfolding put
  All-put [] k v p h = (p, tt)
  All-put ((i, w) ∷ d) k v p h = elim (Bool-cases (i == k)) [
    | inl same ↦ rw same (subst (λ j. P (j, v)) (sym (eq_of_beq i k same)) p, h.1)
    | inr other ↦ rw other (h.0, All-put d k v p h.1)
  ]

  pub All-get : (d : Dict K V) (k : K) {v : V} → get d k ≡ some v → All P d → P (k, v)
  unfolding get
  All-get [] k found h = cc
  All-get ((i, w) ∷ d) k {v} found h = elim (Bool-cases (i == k)) [
    | inl same ↦
        let value : w ≡ v = ground arith in
        let key = eq_of_beq i k same in let entry : (i, w) ≡ (k, v) = cc in subst P entry h.0
    | inr other ↦ All-get d k {v = v} (ground arith) h.1
  ]
