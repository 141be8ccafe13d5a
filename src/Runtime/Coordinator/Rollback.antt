-- ===== src/Runtime/Coordinator/Rollback.antt =====
-- A start of the components happens for all of them or for none.
use edge_weapon_detection_pl.Base.{
  ℕ, ◌-◌, ◌≡◌, refl, ap, ◌∙◌, sym, subst, arith, true, false, not, List, [], ◌∷◌, ◌++◌, All, keep,
  if◌then◌else◌, Bool-cases, inl, inr,
}
use mathlib.Core.List.{append_assoc, append-nil}
use edge_weapon_detection_pl.Base.Eq.{◌==◌, nat_eq}
use edge_weapon_detection_pl.Base.Sets.{contains}
use edge_weapon_detection_pl.Base.Rows.{count_rows, count-append}
use edge_weapon_detection_pl.Identity.{is_operational}
use edge_weapon_detection_pl.Runtime.Coordinator.{
  OperationalStateCoordinator, Called, start, returns, components_locked, start_failed, Transition,
  Behaviour, stops, remove_first, reversed, rollback, start_each, pending_components,
  start_operational_components,
}

abbrev count : ℕ → List ℕ → ℕ
count z xs = count_rows (λ x. x == z) xs

count-remove_first :
    (z c : ℕ) (xs : List ℕ) → count z (remove_first c xs) ≡ count z xs - (if c == z then 1 else 0)
unfolding remove_first
count-remove_first z c [] = ground arith
count-remove_first z c (x ∷ xs) = ground (arith, count-remove_first z c xs)

count-rollback : (z : ℕ) (cs xs : List ℕ) → count z (rollback cs xs) ≡ count z xs - count z cs
unfolding rollback
count-rollback z [] xs = omega arith
count-rollback z (c ∷ cs) xs =
    ground (arith, count-rollback z cs (remove_first c xs), count-remove_first z c xs)

count-reversed : (z : ℕ) (xs : List ℕ) → count z (reversed xs) ≡ count z xs
count-reversed z [] = refl
count-reversed z (x ∷ xs) =
    ground (arith, count-append (λ y. y == z) (reversed xs) x, count-reversed z xs)

nothing_counted : (xs : List ℕ) → ((z : ℕ) → count z xs ≡ 0) → xs ≡ []
nothing_counted [] h = refl
nothing_counted (x ∷ xs) h = let none_of : count x (x ∷ xs) ≡ 0 = h x in ground arith

-- What was started last is stopped first, and nothing of it is left.
rollback-reversed : (xs : List ℕ) → rollback (reversed xs) xs ≡ []
rollback-reversed xs =
    nothing_counted (rollback (reversed xs) xs)
      (λ z. omega (arith, count-rollback z (reversed xs) xs, count-reversed z xs))

-- Components that were not running before.
abbrev AllNew : List ℕ → List ℕ → Type 0
AllNew running cs = All (λ c. contains running c ≡ false) cs

remove_first-append :
    (c : ℕ) (running ys : List ℕ)
    → contains running c ≡ false
    → remove_first c (running ++ ys) ≡ running ++ remove_first c ys
unfolding remove_first contains
remove_first-append c [] ys new = refl
remove_first-append c (x ∷ running) ys new = ground (arith, remove_first-append c running ys)

rollback-append :
    (cs running ys : List ℕ)
    → AllNew running cs
    → rollback cs (running ++ ys) ≡ running ++ rollback cs ys
unfolding rollback
rollback-append [] running ys new = refl
rollback-append (c ∷ cs) running ys new =
    ap (rollback cs) (remove_first-append c running ys new.0)
    ∙ rollback-append cs running (remove_first c ys) new.1

AllNew-snoc :
    (running cs : List ℕ) (c : ℕ)
    → AllNew running cs
    → contains running c ≡ false
    → AllNew running (cs ++ c ∷ [])
AllNew-snoc running [] c new h = (h, tt)
AllNew-snoc running (x ∷ cs) c new h = (new.0, AllNew-snoc running cs c new.1 h)

AllNew-reversed : (running cs : List ℕ) → AllNew running cs → AllNew running (reversed cs)
AllNew-reversed running [] new = tt
AllNew-reversed running (c ∷ cs) new =
    AllNew-snoc running (reversed cs) c (AllNew-reversed running cs new.1) new.0

rollback_all :
    (running started : List ℕ)
    → AllNew running started
    → rollback (reversed started) (running ++ started) ≡ running
rollback_all running started new =
    rollback-append (reversed started) running started (AllNew-reversed running started new)
    ∙ ap (λ ys. running ++ ys) (rollback-reversed started)
    ∙ append-nil running

-- The calls of `start`, in their order.
abbrev pub starts : List ℕ → List Called
starts [] = []
starts (c ∷ cs) = start c ∷ starts cs

starts-append : (cs : List ℕ) (c : ℕ) → starts cs ++ start c ∷ [] ≡ starts (cs ++ c ∷ [])
starts-append [] c = refl
starts-append (x ∷ cs) c = ap (λ rest. start x ∷ rest) (starts-append cs c)

-- The components start, as they are called.
abbrev pub AllStart : Behaviour → List ℕ → Type 0
AllStart b cs = All (λ c. b.start_raises c ≡ false) cs

AllStart-snoc :
    (b : Behaviour) (cs : List ℕ) (c : ℕ)
    → AllStart b cs
    → b.start_raises c ≡ false
    → AllStart b (cs ++ c ∷ [])
AllStart-snoc b [] c h k = (k, tt)
AllStart-snoc b (x ∷ cs) c h k = (h.0, AllStart-snoc b cs c h.1 k)

-- How an attempt to start ends. A locked device has nothing called. Otherwise each pending component is
-- started in its order, until one raises: then those before it are stopped from the last one on.
pub data IsAllOrNothing (b : Behaviour) (s : OperationalStateCoordinator) (pending : List ℕ)
    : Transition → Type 0 where
  locked :
      is_operational s.state ≡ false
      → IsAllOrNothing b s pending (record { after = s; called = []; ending = components_locked })
  undone :
      (before later : List ℕ) (c : ℕ)
      → is_operational s.state ≡ true
      → pending ≡ before ++ c ∷ later
      → AllStart b before
      → b.start_raises c ≡ true
      → IsAllOrNothing b s pending (record {
        after = s;
        called = starts before ++ start c ∷ stops (reversed before);
        ending = start_failed c;
      })
  started :
      is_operational s.state ≡ true
      → AllStart b pending
      → IsAllOrNothing b s pending (record {
        after = record s { running = s.running ++ pending };
        called = starts pending;
        ending = returns;
      })

-- The state in the middle of the loop.
abbrev with_started : OperationalStateCoordinator → List ℕ → OperationalStateCoordinator
with_started s done = record s { running = s.running ++ done }

start_each-IsAllOrNothing :
    (b : Behaviour) (s : OperationalStateCoordinator) (pending done : List ℕ)
    → is_operational s.state ≡ true
    → AllNew s.running pending
    → AllNew s.running done
    → AllStart b done
    → IsAllOrNothing b s
        (done ++ pending)
        (start_each b (with_started s done) pending done (starts done))
unfolding start_each
start_each-IsAllOrNothing b s [] done up new old ok =
    subst
      (λ cs.
        IsAllOrNothing b s cs
          (record { after = with_started s done; called = starts done; ending = returns }))
      (sym (append-nil done)) (started up ok)
start_each-IsAllOrNothing b s (c ∷ pending) done up new old ok =
    elim (Bool-cases (b.start_raises c)) [
      | inl fails ↦
          simp fails (rw (rollback_all s.running done old) (undone done pending c up refl ok fails))
      | inr fine ↦
          let more =
            start_each-IsAllOrNothing b s pending (done ++ c ∷ []) up new.1
              (AllNew-snoc s.running done c old new.0) (AllStart-snoc b done c ok fine) in
          let same_pending = append_assoc done (c ∷ []) pending in
          let same_running = sym (append_assoc s.running done (c ∷ [])) in
          let same_called = sym (starts-append done c) in
          simp fine (
            subst
              (λ called. IsAllOrNothing b s (done ++ c ∷ pending) (
                start_each b (record s { running = (s.running ++ done) ++ c ∷ [] }) pending
                  (done ++ c ∷ []) called))
              same_called
              (subst
                (λ running. IsAllOrNothing b s (done ++ c ∷ pending) (
                  start_each b (record s { running = running }) pending (done ++ c ∷ [])
                    (starts (done ++ c ∷ []))))
                same_running
                (subst
                  (λ cs. IsAllOrNothing b s cs (
                    start_each b (with_started s (done ++ c ∷ [])) pending (done ++ c ∷ [])
                      (starts (done ++ c ∷ []))))
                  same_pending more)))
    ]

AllNew-filter : (running cs : List ℕ) → AllNew running (keep (λ c. not (contains running c)) cs)
AllNew-filter running [] = tt
AllNew-filter running (c ∷ cs) = elim (Bool-cases (contains running c)) [
  | inl old ↦ simp old (AllNew-filter running cs)
  | inr new ↦ simp new (refl, AllNew-filter running cs)
]

-- On a locked device nothing is called and nothing changes. Otherwise the components that do not run are
-- started in their order: if all start, all of them run; if one raises, those that were started before it
-- are stopped in the opposite order, and the coordinator is as it was before.
pub start_operational_components-IsAllOrNothing :
    (b : Behaviour) (s : OperationalStateCoordinator)
    → IsAllOrNothing b s (pending_components s) (start_operational_components b s)
unfolding start_operational_components
start_operational_components-IsAllOrNothing b s = elim (Bool-cases (is_operational s.state)) [
  | inl up ↦ simp up (
      subst
        (λ running.
          IsAllOrNothing b s (pending_components s)
            (start_each b (record s { running = running }) (pending_components s) [] []))
        (append-nil s.running)
        (start_each-IsAllOrNothing b s (pending_components s) [] up
          (AllNew-filter s.running s.components) tt tt))
  | inr down ↦ simp down (locked down)
]
