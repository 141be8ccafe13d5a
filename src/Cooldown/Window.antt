-- ===== src/Cooldown/Window.antt =====
-- Each identity has a window of its own, that only an accepted detection opens.
use mathlib.Core.Path.{subst, subst₂}
use edge_weapon_detection_pl.Base.{
  ℕ, ◌+◌, ◌<◌, String, Option, none, some, List, [], ◌∷◌, ◌≡◌, arith, ◌↔◌, if◌then◌else◌, ◌>>=◌,
  >>=-eq-some, sym,
}
use edge_weapon_detection_pl.Base.Eq.{◌==◌}
use edge_weapon_detection_pl.Base.Dict.{get, get-put}
use edge_weapon_detection_pl.Cooldown.{
  CooldownKey, key_eq, CooldownDecision, accept, suppress, identity_key, DetectionCooldownTracker,
  within_window, evaluate,
}

-- One call of `evaluate` with the readings of its clock.
pub record Visit : Type 0 where
  pub device_id : String
  pub camera_id : String
  pub class_name : String
  pub decided_at : ℕ
  pub committed_at : ℕ

abbrev pub evaluate_visit :
    DetectionCooldownTracker → Visit → Option (CooldownDecision × DetectionCooldownTracker)
evaluate_visit t v = evaluate t v.device_id v.camera_id v.class_name v.decided_at v.committed_at

-- The calls in their order; a call with a blank part raises and ends the run.
unfoldable pub evaluate_all : DetectionCooldownTracker → List Visit → Option (List CooldownDecision)
evaluate_all t [] = some []
evaluate_all t (v ∷ vs) = do
  (decision, t') ← evaluate_visit t v
  decisions ← evaluate_all t' vs
  some (decision ∷ decisions)

abbrev pub visit_key : Visit → CooldownKey
visit_key v = (v.device_id, v.camera_id, v.class_name)

-- A window is open at `now` if the identity was accepted less than a cooldown ago.
abbrev pub IsOpen : ℕ → Option ℕ → ℕ → Type 0
IsOpen cooldown none now = ⊥
IsOpen cooldown (some last) now = now < last + cooldown

-- When the identity was accepted last, once this call is over.
abbrev pub last_after : CooldownKey → Option ℕ → Visit → CooldownDecision → Option ℕ
last_after key last v suppress = last
last_after key last v accept = if visit_key v == key then some v.committed_at else last

-- What an observer of one identity expects: a call for it is suppressed exactly when its window is
-- open, and only the acceptance of such a call opens a window.
abbrev pub Windowed : ℕ → CooldownKey → Option ℕ → List Visit → List CooldownDecision → Type 0
Windowed cooldown key last [] [] = Unit
Windowed cooldown key last [] (d ∷ ds) = ⊥
Windowed cooldown key last (v ∷ vs) [] = ⊥
Windowed cooldown key last (v ∷ vs) (d ∷ ds) =
    (visit_key v ≡ key → (d ≡ suppress) ↔ IsOpen cooldown last v.decided_at)
    × Windowed cooldown key (last_after key last v d) vs ds

suppress-IsOpen :
    (cooldown : ℕ) (last : Option ℕ) (now : ℕ)
    → (within_window cooldown last now ≡ suppress) ↔ IsOpen cooldown last now
unfolding within_window
suppress-IsOpen cooldown none now = ((λ e. cc), (λ h. absurd h))
suppress-IsOpen cooldown (some last) now = ground arith

module _ (t : DetectionCooldownTracker) (v : Visit) {d : CooldownDecision}
    {t' : DetectionCooldownTracker} (run : evaluate_visit t v ≡ some (d, t')) where
  decision_of_visit :
      d ≡ within_window t.cooldown_seconds (get t.last_accepted_at (visit_key v)) v.decided_at
  unfolding evaluate identity_key
  decision_of_visit = ground arith

  cooldown_of_visit : t'.cooldown_seconds ≡ t.cooldown_seconds
  unfolding evaluate identity_key
  cooldown_of_visit = ground arith

  last_of_visit :
      (key : CooldownKey)
      → get t'.last_accepted_at key ≡ last_after key (get t.last_accepted_at key) v d
  unfolding evaluate identity_key
  last_of_visit key = ground (arith, get-put t.last_accepted_at (visit_key v) v.committed_at key)

evaluate_all-eq-some :
    (t : DetectionCooldownTracker) (v : Visit) (vs : List Visit) {ds : List CooldownDecision}
    → evaluate_all t (v ∷ vs) ≡ some ds
    → (d : CooldownDecision) × (t' : DetectionCooldownTracker) × (rest : List CooldownDecision)
      × (evaluate_visit t v ≡ some (d, t'))
      × (evaluate_all t' vs ≡ some rest)
      × (ds ≡ d ∷ rest)
unfolding evaluate_all
evaluate_all-eq-some t v vs {ds} h =
    let ((d, t'), first, later) = >>=-eq-some (evaluate_visit t v) _ h in
    let (rest, run, whole) = >>=-eq-some (evaluate_all t' vs) _ later in
    (d, t', rest, first, run, cc whole)

Windowed-cons :
    (t t' : DetectionCooldownTracker) (key : CooldownKey) (v : Visit) (vs : List Visit)
    (d : CooldownDecision) (ds : List CooldownDecision)
    → evaluate_visit t v ≡ some (d, t')
    → Windowed t'.cooldown_seconds key (get t'.last_accepted_at key) vs ds
    → Windowed t.cooldown_seconds key (get t.last_accepted_at key) (v ∷ vs) (d ∷ ds)
Windowed-cons t t' key v vs d ds first rest = (
  (λ own. suppressed own),
  subst₂ (λ cooldown last. Windowed cooldown key last vs ds) (cooldown_of_visit t v first)
      (last_of_visit t v first key) rest,
)
  where
    suppressed :
        visit_key v ≡ key
        → (d ≡ suppress) ↔ IsOpen t.cooldown_seconds (get t.last_accepted_at key) v.decided_at
    suppressed own =
        subst
          (λ k. (d ≡ suppress) ↔ IsOpen t.cooldown_seconds (get t.last_accepted_at k) v.decided_at)
          own
          (rw (decision_of_visit t v first) (
            suppress-IsOpen t.cooldown_seconds (get t.last_accepted_at (visit_key v)) v.decided_at))

-- Whatever the calls in between, a call for an identity is suppressed exactly when its identity was
-- accepted less than a cooldown before.
pub evaluate_all-Windowed :
    (t : DetectionCooldownTracker) (key : CooldownKey) (vs : List Visit)
    (ds : List CooldownDecision)
    → evaluate_all t vs ≡ some ds
    → Windowed t.cooldown_seconds key (get t.last_accepted_at key) vs ds
unfolding evaluate_all
evaluate_all-Windowed t key [] [] h = tt
evaluate_all-Windowed t key [] (d ∷ ds) h = cc
evaluate_all-Windowed t key (v ∷ vs) ds h =
    let (d, t', rest, first, later, whole) = evaluate_all-eq-some t v vs {ds = ds} h in
    subst (λ out. Windowed t.cooldown_seconds key (get t.last_accepted_at key) (v ∷ vs) out)
      (sym whole)
      (Windowed-cons t t' key v vs d rest first (evaluate_all-Windowed t' key vs rest later))
