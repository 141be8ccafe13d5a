-- ===== src/Json.antt =====
-- The values that `json.loads` returns. Objects become dictionaries by `dict_of`.
use edge_weapon_detection_pl.Base.{String, Bool, List, [], ◌∷◌}
use edge_weapon_detection_pl.Base.Int.{ℤ}
use edge_weapon_detection_pl.Base.Dict.{Dict}

mutual
  pub data Value (F : Type 0) : Type 0 where
    null : Value F
    bool : Bool → Value F
    int : ℤ → Value F
    float : F → Value F
    str : String → Value F
    arr : Items F → Value F
    obj : Fields F → Value F

  pub data Items (F : Type 0) : Type 0 where
    nil : Items F
    cons : Value F → Items F → Items F

  pub data Fields (F : Type 0) : Type 0 where
    end : Fields F
    field : String → Value F → Fields F → Fields F

abbrev pub Payload : Type 0 → Type 0
Payload F = Dict String (Value F)

abbrev pub dict_of : {F : Type 0} → Fields F → Payload F
dict_of end = []
dict_of (field k v fs) = (k, v) ∷ dict_of fs

abbrev pub list_of : {F : Type 0} → Items F → List (Value F)
list_of nil = []
list_of (cons v vs) = v ∷ list_of vs
