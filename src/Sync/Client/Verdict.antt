-- ===== src/Sync/Client/Verdict.antt =====
-- `_parse_results` classifies exactly the ids that the answer names once.
use mathlib.Core.Path.{subst}
use mathlib.Core.List.{append-nil, append_assoc}
use edge_weapon_detection_pl.Base.{
  ℕ, ◌≡◌, refl, arith, String, Bool, true, false, Option, none, some, List, [], ◌∷◌, ◌++◌, sym,
  if◌then◌else◌, ◌∙◌, Bool-cases, inl, inr,
}
use edge_weapon_detection_pl.Base.Eq.{◌==◌, nat_eq, string_eq}
use edge_weapon_detection_pl.Base.Dict.{Dict, get, get-put, get-pop}
use edge_weapon_detection_pl.Base.Sets.{contains, contains-add, contains-discard}
use edge_weapon_detection_pl.Json.{Value, Payload, dict_of}
use edge_weapon_detection_pl.Sync.Client.{
  SyncBatchResult, ItemOutcome, Parsed, nothing_parsed, outcome_of, classify_by, classify_item,
  parse_id, parse_named, parse_item, parse_items, forget, forget_all, parse_results, text_or,
  parse_quota_info,
}

abbrev pub has : {V : Type 0} → Dict ℕ V → ℕ → Bool
has d i = elim (get d i) [ none ↦ false | some v ↦ true ]

abbrev pub is_accepted : ItemOutcome → Bool
is_accepted o = elim o [ ItemOutcome.accepted ↦ true | _ ↦ false ]

abbrev pub is_duplicate : ItemOutcome → Bool
is_duplicate o = elim o [ ItemOutcome.duplicate ↦ true | _ ↦ false ]

abbrev pub is_rejected : ItemOutcome → Bool
is_rejected o = elim o [ ItemOutcome.rejected ↦ true | _ ↦ false ]

abbrev pub is_quota_exceeded : ItemOutcome → Bool
is_quota_exceeded o = elim o [ ItemOutcome.quota_exceeded ↦ true | _ ↦ false ]

-- In which collections of a result an id stands.
pub record Standing : Type 0 where
  pub accepted : Bool
  pub duplicate : Bool
  pub rejected : Bool
  pub quota_exceeded : Bool

abbrev pub standing : SyncBatchResult → ℕ → Standing
standing r i = record {
  accepted = contains r.accepted i;
  duplicate = contains r.duplicate i;
  rejected = has r.rejected i;
  quota_exceeded = has r.quota_exceeded i;
}

abbrev pub nowhere : Standing
nowhere = record { accepted = false; duplicate = false; rejected = false; quota_exceeded = false }

-- The standing that one outcome gives.
abbrev pub standing_for : ItemOutcome → Standing
standing_for o = record {
  accepted = is_accepted o;
  duplicate = is_duplicate o;
  rejected = is_rejected o;
  quota_exceeded = is_quota_exceeded o;
}

forget-standing :
    (r : SyncBatchResult) (j i : ℕ)
    → standing (forget r j) i ≡ (if j == i then nowhere else standing r i)
unfolding forget
forget-standing r j i = ground (
  arith,
  contains-discard r.accepted j i,
  contains-discard r.duplicate j i,
  get-pop r.rejected j i,
  get-pop r.quota_exceeded j i,
)

forget_all-standing :
    (is : List ℕ) (r : SyncBatchResult) (i : ℕ)
    → standing (forget_all is r) i ≡ (if contains is i then nowhere else standing r i)
unfolding forget_all contains
forget_all-standing [] r i = refl
forget_all-standing (j ∷ is) r i =
    forget_all-standing is (forget r j) i ∙ ground (arith, forget-standing r j i)

module _ {F : Type 0} where
  classify_by-standing :
      (o : ItemOutcome) (item : Payload F) (j : ℕ) (r : SyncBatchResult) (i : ℕ)
      → (j ≡ i → standing r i ≡ nowhere)
      → standing (classify_by o item j r) i ≡ (if j == i then standing_for o else standing r i)
  classify_by-standing ItemOutcome.accepted item j r i fresh =
      ground (arith, contains-add r.accepted j i, nat_eq.same_iff j i)
  classify_by-standing ItemOutcome.duplicate item j r i fresh =
      ground (arith, contains-add r.duplicate j i, nat_eq.same_iff j i)
  classify_by-standing ItemOutcome.rejected item j r i fresh = ground (
    arith,
    get-put r.rejected j (text_or (get item "errorCode") "UNKNOWN") i,
    nat_eq.same_iff j i,
  )
  classify_by-standing ItemOutcome.quota_exceeded item j r i fresh = ground (
    arith,
    get-put r.quota_exceeded j (parse_quota_info (get item "quota")) i,
    nat_eq.same_iff j i,
  )
  classify_by-standing ItemOutcome.unrecognized item j r i fresh =
      ground (arith, nat_eq.same_iff j i)

  -- The item, if it is an object whose `eventId` is the id `i`.
  abbrev pub item_for : Option ℕ → ℕ → Payload F → List (Payload F)
  item_for none i item = []
  item_for (some j) i item = if j == i then item ∷ [] else []

  abbrev pub mention : (String → Option ℕ) → ℕ → Value F → List (Payload F)
  mention uuid_of i (Value.obj fields) =
      item_for (parse_id uuid_of (dict_of fields)) i (dict_of fields)
  mention uuid_of i v = []

  -- The items of the answer that name an id.
  abbrev pub mentions : (String → Option ℕ) → ℕ → List (Value F) → List (Payload F)
  mentions uuid_of i [] = []
  mentions uuid_of i (v ∷ vs) = mention uuid_of i v ++ mentions uuid_of i vs

  -- Where an id should stand: nowhere, unless exactly one item names it.
  abbrev pub verdict : List (Payload F) → Standing
  verdict [] = nowhere
  verdict (item ∷ []) = standing_for (outcome_of item)
  verdict (item ∷ other ∷ items) = nowhere

  abbrev is_named : List (Payload F) → Bool
  is_named [] = false
  is_named (item ∷ items) = true

  abbrev is_repeated : List (Payload F) → Bool
  is_repeated [] = false
  is_repeated (item ∷ items) = is_named items

  abbrev first_standing : List (Payload F) → Standing
  first_standing [] = nowhere
  first_standing (item ∷ items) = standing_for (outcome_of item)

  -- What the loop knows of an id once the items of `ms` have named it.
  record Tracks (p : Parsed) (i : ℕ) (ms : List (Payload F)) : Type 0 where
    seen : contains p.seen i ≡ is_named ms
    ambiguous : contains p.ambiguous i ≡ is_repeated ms
    stands : standing p.result i ≡ first_standing ms

  is_named-snoc : (ms : List (Payload F)) (item : Payload F) → is_named (ms ++ item ∷ []) ≡ true
  is_named-snoc [] item = refl
  is_named-snoc (m ∷ ms) item = refl

  is_repeated-snoc :
      (ms : List (Payload F)) (item : Payload F) → is_repeated (ms ++ item ∷ []) ≡ is_named ms
  is_repeated-snoc [] item = refl
  is_repeated-snoc (m ∷ ms) item = is_named-snoc ms item

  first_standing-snoc :
      (ms : List (Payload F)) (item : Payload F)
      → first_standing (ms ++ item ∷ [])
        ≡ (if is_named ms then first_standing ms else standing_for (outcome_of item))
  first_standing-snoc [] item = refl
  first_standing-snoc (m ∷ ms) item = refl

  first_standing-fresh : (ms : List (Payload F)) → is_named ms ≡ false → first_standing ms ≡ nowhere
  first_standing-fresh [] h = refl
  first_standing-fresh (m ∷ ms) h = cc

  named-Tracks :
      (item : Payload F) (i : ℕ) (p : Parsed) (ms : List (Payload F))
      → Tracks p i ms
      → Tracks (parse_named item (some i) p) i (ms ++ item ∷ [])
  unfolding classify_item
  named-Tracks item i p ms t = ground (
    arith,
    is_named-snoc ms item,
    is_repeated-snoc ms item,
    first_standing-snoc ms item,
    first_standing-fresh ms,
    contains-add p.seen i i,
    contains-add p.ambiguous i i,
    nat_eq.same_iff i i,
    classify_by-standing (outcome_of item) item i p.result i,
  )

  other-Tracks :
      (item : Payload F) (j i : ℕ) (p : Parsed) (ms : List (Payload F))
      → (j == i) ≡ false
      → Tracks p i ms
      → Tracks (parse_named item (some j) p) i ms
  unfolding classify_item
  other-Tracks item j i p ms differ t = ground (
    arith,
    contains-add p.seen j i,
    contains-add p.ambiguous j i,
    nat_eq.same_iff j i,
    classify_by-standing (outcome_of item) item j p.result i,
  )

  object-Tracks :
      (item : Payload F) (named : Option ℕ) (i : ℕ) (p : Parsed) (ms : List (Payload F))
      → Tracks p i ms
      → Tracks (parse_named item named p) i (ms ++ item_for named i item)
  object-Tracks item none i p ms t = subst (Tracks p i) (sym (append-nil ms)) t
  object-Tracks item (some j) i p ms t = elim (Bool-cases (j == i)) [
    | inl same ↦ let e : j ≡ i = ground arith in rw (same, e) (named-Tracks item i p ms t)
    | inr differ ↦ rw differ (
        subst (Tracks (parse_named item (some j) p) i) (sym (append-nil ms))
          (other-Tracks item j i p ms differ t))
  ]

  item-Tracks :
      (uuid_of : String → Option ℕ) (v : Value F) (i : ℕ) (p : Parsed) (ms : List (Payload F))
      → Tracks p i ms
      → Tracks (parse_item uuid_of v p) i (ms ++ mention uuid_of i v)
  unfolding parse_item
  item-Tracks uuid_of (Value.obj fields) i p ms t =
      object-Tracks (dict_of fields) (parse_id uuid_of (dict_of fields)) i p ms t
  item-Tracks uuid_of v i p ms t = subst (Tracks p i) (sym (append-nil ms)) t

  items-Tracks :
      (uuid_of : String → Option ℕ) (vs : List (Value F)) (i : ℕ) (p : Parsed)
      (ms : List (Payload F))
      → Tracks p i ms
      → Tracks (parse_items uuid_of vs p) i (ms ++ mentions uuid_of i vs)
  unfolding parse_items
  items-Tracks uuid_of [] i p ms t = subst (Tracks p i) (sym (append-nil ms)) t
  items-Tracks uuid_of (v ∷ vs) i p ms t =
      subst (Tracks (parse_items uuid_of (v ∷ vs) p) i)
        (append_assoc ms (mention uuid_of i v) (mentions uuid_of i vs))
        (items-Tracks uuid_of vs i (parse_item uuid_of v p) (ms ++ mention uuid_of i v)
          (item-Tracks uuid_of v i p ms t))

  verdict-eq :
      (ms : List (Payload F)) → (if is_repeated ms then nowhere else first_standing ms) ≡ verdict ms
  verdict-eq [] = refl
  verdict-eq (item ∷ []) = refl
  verdict-eq (item ∷ other ∷ items) = refl

  -- Whatever the Backend answers, an id stands among the accepted, the duplicates, the rejected or
  -- the quota-suppressed exactly as the one item says that names it, and nowhere if no item names
  -- it or more than one does.
  pub parse_results-standing :
      (uuid_of : String → Option ℕ) (results : List (Value F)) (i : ℕ)
      → standing (parse_results uuid_of results) i ≡ verdict (mentions uuid_of i results)
  unfolding parse_results contains get
  parse_results-standing uuid_of results i =
      let p = parse_items uuid_of results nothing_parsed in
      let t =
        items-Tracks uuid_of results i nothing_parsed []
          (record { seen = refl; ambiguous = refl; stands = refl }) in
      forget_all-standing p.ambiguous p.result i
      ∙ rw (t.ambiguous, t.stands) (verdict-eq (mentions uuid_of i results))
