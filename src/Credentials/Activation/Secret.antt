-- ===== src/Credentials/Activation/Secret.antt =====
-- The secret that an activation gives is not blank.
use edge_weapon_detection_pl.Base.{
  String, false, Option, none, some, ◌≡◌, refl, sym, arith, ◌≢◌, inl, inr, Bool-cases, nat_beq,
  subst,
}
use edge_weapon_detection_pl.Base.Eq.{string_eq}
use edge_weapon_detection_pl.Base.Text.{is_blank}
use edge_weapon_detection_pl.Base.Dict.{get}
use edge_weapon_detection_pl.Sync.Client.{text_of, is_true}
use edge_weapon_detection_pl.Json.{Value, Payload, dict_of}
use edge_weapon_detection_pl.Credentials.Activation.{
  ActivationResult, ActivationResponse, Body, response, activated, backend_activate,
  parse_activation, from_response_data, result_of, require_non_blank_str, non_blank, activating_of,
  safe_error_code,
}

non_blank-secret : (o : Option String) (s : String) → non_blank o ≡ some s → is_blank s ≡ false
non_blank-secret none s h = cc
non_blank-secret (some t) s h = elim (Bool-cases (is_blank t)) [
  | inl blank ↦ ground arith
  | inr fine ↦ ground arith
]

require_non_blank :
    {F : Type 0} (payload : Payload F) (key : String) (s : String)
    → require_non_blank_str payload key ≡ some s
    → is_blank s ≡ false
unfolding require_non_blank_str
require_non_blank payload key s h = non_blank-secret (text_of (get payload key)) s h

result_of-secret :
    {F : Type 0} (payload : Payload F) (r : ActivationResult)
    → result_of payload ≡ some r
    → is_blank r.shared_secret ≡ false
result_of-secret payload r h =
    ground (arith, require_non_blank payload "sharedSecret" r.shared_secret)

activating_of-secret :
    {F : Type 0} (payload : Payload F) (o : Option ActivationResult) (r : ActivationResult)
    → o ≡ result_of payload
    → activating_of o ≡ activated r
    → is_blank r.shared_secret ≡ false
activating_of-secret payload none r e h = ground arith
activating_of-secret payload (some r') r e h =
    let same : r' ≡ r = ground arith in
    subst (λ q. is_blank q.shared_secret ≡ false) same (result_of-secret payload r' (sym e))

data_secret :
    {F : Type 0} (v : Option (Value F)) (r : ActivationResult)
    → activating_of (from_response_data v) ≡ activated r
    → is_blank r.shared_secret ≡ false
unfolding from_response_data
data_secret (some (Value.obj fields)) r h = activating_of-secret (dict_of fields) _ r refl h
data_secret none r h = ground arith
data_secret (some Value.null) r h = ground arith
data_secret (some (Value.bool b)) r h = ground arith
data_secret (some (Value.int n)) r h = ground arith
data_secret (some (Value.float x)) r h = ground arith
data_secret (some (Value.str s)) r h = ground arith
data_secret (some (Value.arr items)) r h = ground arith

-- The secret of an activation is not blank.
body_secret :
    {F : Type 0} (body : Body F) (r : ActivationResult)
    → parse_activation body ≡ activated r
    → is_blank r.shared_secret ≡ false
unfolding parse_activation
body_secret (Body.json (Value.obj fields)) r h =
    elim (Bool-cases (is_true (get (dict_of fields) "success"))) [
      | inl yes_true ↦ data_secret (get (dict_of fields) "data") r (ground arith)
      | inr other ↦ ground arith
    ]
body_secret (Body.json Value.null) r h = ground arith
body_secret (Body.json (Value.bool b)) r h = ground arith
body_secret (Body.json (Value.int n)) r h = ground arith
body_secret (Body.json (Value.float x)) r h = ground arith
body_secret (Body.json (Value.str s)) r h = ground arith
body_secret (Body.json (Value.arr items)) r h = ground arith
body_secret Body.not_json r h = ground arith
body_secret Body.not_utf8 r h = ground arith

safe_error_code_lem :
    {F : Type 0} (body : Body F) (r : ActivationResult) → safe_error_code body ≢ activated r
unfolding safe_error_code
safe_error_code_lem (Body.json (Value.obj fields)) r h = ground arith
safe_error_code_lem (Body.json Value.null) r h = ground arith
safe_error_code_lem (Body.json (Value.bool b)) r h = ground arith
safe_error_code_lem (Body.json (Value.int n)) r h = ground arith
safe_error_code_lem (Body.json (Value.float x)) r h = ground arith
safe_error_code_lem (Body.json (Value.str s)) r h = ground arith
safe_error_code_lem (Body.json (Value.arr items)) r h = ground arith
safe_error_code_lem Body.not_json r h = ground arith
safe_error_code_lem Body.not_utf8 r h = ground arith

pub backend_activate-secret :
    {F : Type 0} (answer : ActivationResponse F) (r : ActivationResult)
    → backend_activate answer ≡ activated r
    → is_blank r.shared_secret ≡ false
unfolding backend_activate
backend_activate-secret ActivationResponse.timed_out r h = ground arith
backend_activate-secret ActivationResponse.transport_error r h = ground arith
backend_activate-secret (response status body) r h = elim (Bool-cases (nat_beq status 200)) [
  | inl good ↦ body_secret body r (ground arith)
  | inr other ↦ elim (Bool-cases (nat_beq status 401)) [
    | inl refused ↦ absurd (safe_error_code_lem body r (ground arith))
    | inr third ↦ ground arith
  ]
]
