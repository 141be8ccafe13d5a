-- ===== src/Ingest/Connection/Queue.antt =====
-- The bounded queue of the ingest handler: `_enqueue`, and `queue.get` in `_consume`.
use mathlib.Core.Path.{subst}
use edge_weapon_detection_pl.Base.{
  ℕ, suc, ◌+◌, ◌≤◌, ◌≡◌, refl, ap, arith, Option, none, some, List, [], ◌∷◌, ◌++◌, length, ltb,
  Bool-cases, inl, inr, length-append,
}
use edge_weapon_detection_pl.Ingest.Connection.{
  QueueItem, QueueState, put_nowait, enqueue, enqueue_in,
}

-- What happens to the queue: an item of some connection, or the consumer's turn.
pub data Event (F : Type 0) : Type 0 where
  arrival : QueueItem F → Event F
  consumption : Event F

-- The queue with what the consumer has taken from it.
pub record Flow (F : Type 0) : Type 0 where
  pub state : QueueState F
  pub taken : List (QueueItem F)

module _ {F : Type 0} where
  -- `queue.get` gives the oldest item, and waits on an empty queue.
  abbrev pub get_item : Option (List (QueueItem F)) → Flow F → Flow F
  get_item (some (item ∷ items)) f = record {
    state = record { queue = some items; dropped_count = f.state.dropped_count };
    taken = f.taken ++ item ∷ [];
  }
  get_item q f = f

  unfoldable pub advance : ℕ → Event F → Flow F → Flow F
  advance capacity (arrival item) f = record f { state = enqueue capacity item f.state }
  advance capacity consumption f = get_item f.state.queue f

  unfoldable pub advance_all : ℕ → Flow F → List (Event F) → Flow F
  advance_all capacity f [] = f
  advance_all capacity f (e ∷ es) = advance_all capacity (advance capacity e f) es

  abbrev pub arrivals : List (Event F) → ℕ
  arrivals [] = 0
  arrivals (arrival item ∷ es) = suc (arrivals es)
  arrivals (consumption ∷ es) = arrivals es

  -- A running queue that keeps its bound and has lost no item but those it counts as dropped.
  pub record Accounts (capacity arrived : ℕ) (f : Flow F) : Type 0 where
    pub waiting : List (QueueItem F)
    pub is_running : f.state.queue ≡ some waiting
    pub bounded : length waiting ≤ capacity
    pub balance : length f.taken + length waiting + f.state.dropped_count ≡ arrived

  put_nowait-Accounts :
      (capacity arrived : ℕ) (item : QueueItem F) (waiting : List (QueueItem F)) (f : Flow F)
      → length waiting ≤ capacity
      → f.state.queue ≡ some waiting
      → length f.taken + length waiting + f.state.dropped_count ≡ arrived
      → Accounts capacity
          (1 + arrived)
          (record f { state = put_nowait capacity item f.state waiting })
  put_nowait-Accounts capacity arrived item waiting f bound running balance =
      elim (Bool-cases (ltb (length waiting) capacity)) [
        | inl room ↦ simp room (record {
          waiting = waiting ++ item ∷ [];
          is_running = refl;
          bounded = ground (arith, length-append waiting (item ∷ []));
          balance = omega (arith, length-append waiting (item ∷ []));
        })
        | inr full ↦ simp full (record {
          waiting = waiting;
          is_running = running;
          bounded = bound;
          balance = omega arith;
        })
      ]

  arrival-Accounts :
      (capacity arrived : ℕ) (item : QueueItem F) (q : Option (List (QueueItem F))) (f : Flow F)
      → f.state.queue ≡ q
      → Accounts capacity arrived f
      → Accounts capacity (1 + arrived) (record f { state = enqueue_in capacity item f.state q })
  arrival-Accounts capacity arrived item none f e a =
      let absent : some a.waiting ≡ none = cc in absurd cc
  arrival-Accounts capacity arrived item (some waiting) f e a =
      let same : a.waiting ≡ waiting = cc in
      put_nowait-Accounts capacity arrived item waiting f
        (subst (λ (w : List (QueueItem F)). length w ≤ capacity) same a.bounded) e
        (subst
          (λ (w : List (QueueItem F)). length f.taken + length w + f.state.dropped_count ≡ arrived)
          same a.balance)

  get_item-Accounts :
      (capacity arrived : ℕ) (q : Option (List (QueueItem F))) (f : Flow F)
      → f.state.queue ≡ q
      → Accounts capacity arrived f
      → Accounts capacity (0 + arrived) (get_item q f)
  get_item-Accounts capacity arrived none f e a =
      let absent : some a.waiting ≡ none = cc in absurd cc
  get_item-Accounts capacity arrived (some []) f e a = record {
    waiting = a.waiting;
    is_running = a.is_running;
    bounded = a.bounded;
    balance = omega (arith, a.balance);
  }
  get_item-Accounts capacity arrived (some (item ∷ items)) f e a =
      let same : a.waiting ≡ item ∷ items = cc in
      let size : length a.waiting ≡ suc (length items) = ap length same in
      let bound = a.bounded in
      let balance = a.balance in
      record {
        waiting = items;
        is_running = refl;
        bounded = omega arith;
        balance = omega (arith, length-append f.taken (item ∷ []));
      }

  advance-Accounts :
      (capacity arrived : ℕ) (e : Event F) (f : Flow F)
      → Accounts capacity arrived f
      → Accounts capacity (arrivals (e ∷ []) + arrived) (advance capacity e f)
  unfolding advance enqueue
  advance-Accounts capacity arrived (arrival item) f a =
      arrival-Accounts capacity arrived item f.state.queue f refl a
  advance-Accounts capacity arrived consumption f a =
      get_item-Accounts capacity arrived f.state.queue f refl a

  total :
      (e : Event F) (es : List (Event F)) (arrived : ℕ)
      → arrivals es + (arrivals (e ∷ []) + arrived) ≡ arrivals (e ∷ es) + arrived
  total (arrival item) es arrived = omega arith
  total consumption es arrived = omega arith

  -- From an account of a running queue, whatever arrives and whenever the consumer takes its turns:
  -- the queue never holds more than its capacity, and what has arrived was taken, waits, or was
  -- counted as dropped.
  pub advance_all-Accounts :
      (capacity arrived : ℕ) (f : Flow F) (es : List (Event F))
      → Accounts capacity arrived f
      → Accounts capacity (arrivals es + arrived) (advance_all capacity f es)
  unfolding advance_all
  advance_all-Accounts capacity arrived f [] a =
      let same : arrived ≡ 0 + arrived = omega arith in subst (λ n. Accounts capacity n f) same a
  advance_all-Accounts capacity arrived f (e ∷ es) a =
      subst (λ n. Accounts capacity n (advance_all capacity (advance capacity e f) es))
        (total e es arrived)
        (advance_all-Accounts capacity (arrivals (e ∷ []) + arrived) (advance capacity e f) es
          (advance-Accounts capacity arrived e f a))
