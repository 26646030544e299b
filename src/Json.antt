-- ===== src/Json.antt =====
-- JSON values: what the code passes to `json.dumps` and gets back from `json.loads`. An object is a
-- Python dictionary (`Base/Dict`). Numbers are the counts and ticks that the program writes.
use plaidify.Base.{
  ℕ, zero, suc, ◌≡◌, refl, ap, Bool, true, false, Option, none, some, List, [], ◌∷◌, length, nat_eq,
}
use plaidify.Base.Compare.{list_eq}
use plaidify.Base.Dict.{Dict, lookup}
use plaidify.Base.Text.{Text}

mutual
  pub data Value : Type 0 where
    null : Value
    bool : Bool → Value
    num : ℕ → Value
    text : Text → Value
    arr : Items → Value
    obj : Fields → Value

  pub data Items : Type 0 where
    nil : Items
    cons : Value → Items → Items

  pub data Fields : Type 0 where
    end : Fields
    field : Text → Value → Fields → Fields

abbrev pub to_list : Items → List Value
to_list nil = []
to_list (cons v vs) = v ∷ to_list vs

abbrev pub of_list : List Value → Items
of_list [] = nil
of_list (v ∷ vs) = cons v (of_list vs)

abbrev pub to_dict : Fields → Dict Text Value
to_dict end = []
to_dict (field k v fs) = (k, v) ∷ to_dict fs

abbrev pub of_dict : Dict Text Value → Fields
of_dict [] = end
of_dict ((k, v) ∷ d) = field k v (of_dict d)

pub to_list-of_list : (vs : List Value) → to_list (of_list vs) ≡ vs
to_list-of_list [] = refl
to_list-of_list (v ∷ vs) = ap (◌∷◌ v) (to_list-of_list vs)

pub to_dict-of_dict : (d : Dict Text Value) → to_dict (of_dict d) ≡ d
to_dict-of_dict [] = refl
to_dict-of_dict ((k, v) ∷ d) = ap (◌∷◌ (k, v)) (to_dict-of_dict d)

-- `if value:`
abbrev pub truthy : Value → Bool
truthy null = false
truthy (bool b) = b
truthy (num zero) = false
truthy (num (suc n)) = true
truthy (text []) = false
truthy (text (c ∷ t)) = true
truthy (arr nil) = false
truthy (arr (cons v vs)) = true
truthy (obj end) = false
truthy (obj (field k v fs)) = true

-- `len(value)`; `none` is the `TypeError` for a value without a length.
abbrev pub value_len : Value → Option ℕ
value_len (text t) = some (length t)
value_len (arr vs) = some (length (to_list vs))
value_len (obj fs) = some (length (to_dict fs))
value_len _ = none

-- `json.dumps` of an object and `json.loads`, with `Blob` for the text between them: what is read
-- back has the same entries, in the order in which they were written out.
pub record Codec : Type 1 where
  pub Blob : Type 0
  pub dumps : Dict Text Value → Blob
  -- `none` is a `ValueError`
  pub loads : Blob → Option (Dict Text Value)
  pub is_empty : Blob → Bool
  pub to_text : Blob → Text
  pub is_empty-dumps : (d : Dict Text Value) → is_empty (dumps d) ≡ false
  pub loads-dumps :
      (d : Dict Text Value)
      → (d' : Dict Text Value) × (loads (dumps d) ≡ some d')
        × ((k : Text) → lookup k d' ≡ lookup k d)

-- A codec that keeps the object itself.
abbrev pub identity_codec : Codec
identity_codec = record {
  Blob = Dict Text Value;
  dumps = λ d. d;
  loads = some;
  is_empty = λ d. false;
  to_text = λ d. [];
  is_empty-dumps = λ d. refl;
  loads-dumps = λ d. (d, refl, λ k. refl);
}
