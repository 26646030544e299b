-- ===== src/AccessJobs/Job.antt =====
-- src/access_jobs.py: a job's record and the metadata it carries. src/database.py: `AccessJob`.
use plaidify.Base.{
  ℕ, Bool, true, false, Option, none, some, List, [], ◌∷◌, length, map, ltb, nat_eqb, if◌then◌else◌,
  nat_eq,
}
use plaidify.Base.Compare.{list_eq}
use plaidify.Base.Dict.{Dict, lookup, insert, keys}
use plaidify.Base.Text.{Text, lit}
use plaidify.Json.{Value, num, text, arr, obj, nil, of_list, to_dict, value_len, Codec}

pub data JobStatus : Type 0 where
  pending running completed mfa_required blocked failed cancelled : JobStatus

module _ (C : Codec) where
  open C use {Blob, dumps, loads, is_empty, to_text}

  pub record AccessJob : Type 0 where
    pub id : Text
    pub user_id : Option ℕ
    pub site : Text
    pub job_type : Text
    pub status : JobStatus
    pub lock_scope : Text
    pub session_id : Option Text
    pub metadata_json : Option Blob
    pub result_json : Option Blob
    pub error_message : Option Text
    pub created_at : ℕ
    pub started_at : Option ℕ
    pub completed_at : Option ℕ

  -- `_serialize_metadata`: nothing and an empty object are not stored.
  unfoldable pub serialize_metadata : Option (Dict Text Value) → Option Blob
  serialize_metadata none = none
  serialize_metadata (some []) = none
  serialize_metadata (some (kv ∷ d)) = some (dumps (kv ∷ d))

  abbrev parsed : Blob → Option (Dict Text Value) → Dict Text Value
  parsed b (some d) = d
  parsed b none = (lit "raw", text (to_text b)) ∷ []

  -- `_deserialize_metadata`
  unfoldable pub deserialize_metadata : Option Blob → Option (Dict Text Value)
  deserialize_metadata none = none
  deserialize_metadata (some b) = if is_empty b then none else some (parsed b (loads b))

  -- The keyword arguments of `_apply_job_state` but the status.
  pub record Change : Type 0 where
    pub session_id : Option Text
    pub started_at : Option ℕ
    pub completed_at : Option ℕ
    pub error_message : Option Text
    pub metadata : Option (Dict Text Value)
    pub result : Option (Dict Text Value)

  abbrev pub no_change : Change
  no_change = record {
    session_id = none;
    started_at = none;
    completed_at = none;
    error_message = none;
    metadata = none;
    result = none;
  }

  -- An argument that is given replaces the field.
  abbrev pub or_keep {ℓ} : {A : Type ℓ} → Option A → Option A → Option A
  or_keep (some a) old = some a
  or_keep none old = old

  abbrev pub serialize_or_keep : Option (Dict Text Value) → Option Blob → Option Blob
  unfolding serialize_metadata
  serialize_or_keep (some d) old = serialize_metadata (some d)
  serialize_or_keep none old = old

  -- `_apply_job_state`
  unfoldable pub apply_job_state : AccessJob → JobStatus → Change → AccessJob
  unfolding serialize_metadata
  apply_job_state job status c = record job {
    status = status;
    session_id = or_keep c.session_id job.session_id;
    started_at = or_keep c.started_at job.started_at;
    completed_at = or_keep c.completed_at job.completed_at;
    error_message = or_keep c.error_message job.error_message;
    metadata_json = serialize_or_keep c.metadata job.metadata_json;
    result_json = serialize_or_keep c.result job.result_json;
  }

-- `d.update(part)`
unfoldable pub update : Dict Text Value → Dict Text Value → Dict Text Value
update d [] = d
update d ((k, v) ∷ part) = update (insert k v d) part

abbrev or_none : Dict Text Value → Option (Dict Text Value)
or_none [] = none
or_none (kv ∷ d) = some (kv ∷ d)

abbrev part_of : Option (Dict Text Value) → Dict Text Value
part_of none = []
part_of (some d) = d

-- `_merge_metadata` of two parts
unfoldable pub merge_metadata :
    Option (Dict Text Value) → Option (Dict Text Value) → Option (Dict Text Value)
unfolding update
merge_metadata a b = or_none (update (update [] (part_of a)) (part_of b))

-- `sorted` of texts, by code points
abbrev pub text_le : Text → Text → Bool
text_le [] t = true
text_le (c ∷ s) [] = false
text_le (c ∷ s) (d ∷ t) =
    let rest = text_le s t in if ltb c d then true else if nat_eqb c d then rest else false

abbrev pub insert_sorted : Text → List Text → List Text
insert_sorted s [] = s ∷ []
insert_sorted s (t ∷ ts) =
    let rest = insert_sorted s ts in if text_le s t then s ∷ t ∷ ts else t ∷ rest

unfoldable pub sorted : List Text → List Text
sorted [] = []
sorted (t ∷ ts) = insert_sorted t (sorted ts)

-- `policy.get("blocked_actions", [])`
abbrev pub blocked_actions : Dict Text Value → Value
unfolding lookup
blocked_actions policy = elim (lookup (lit "blocked_actions") policy) [
  | none ↦ arr nil
  | some v ↦ v
]

-- `policy.get("blocked_action_count", len(policy.get("blocked_actions", [])))`: the length is
-- computed in any case, and `none` is its `TypeError`.
unfoldable pub blocked_count : Dict Text Value → Option Value
blocked_count policy = elim (value_len (blocked_actions policy)) [
  | none ↦ none
  | some n ↦ elim (lookup (lit "blocked_action_count") policy) [
    | none ↦ some (num n)
    | some v ↦ some v
  ]
]

-- The part of `_result_metadata` about the policy of the browser run.
abbrev policy_metadata : Option Value → Dict Text Value → Option (Dict Text Value)
unfolding lookup insert blocked_count
policy_metadata (some (obj response)) metadata =
    elim (lookup (lit "read_only_policy") (to_dict response)) [
      | some (obj policy) ↦ elim (blocked_count (to_dict policy)) [
        | none ↦ none
        | some count ↦ some (
            insert (lit "read_only_policy_blocked_count") count
              (insert (lit "read_only_policy") (obj policy) metadata))
      ]
      | _ ↦ some metadata
    ]
policy_metadata _ metadata = some metadata

-- The part about the extracted data.
abbrev data_metadata : Option Value → Dict Text Value → Dict Text Value
unfolding insert sorted
data_metadata (some (obj fs)) metadata =
    insert (lit "result_fields") (arr (of_list (map text (sorted (keys (to_dict fs))))))
      (insert (lit "result_field_count") (num (length (to_dict fs))) metadata)
data_metadata _ metadata = metadata

abbrev status_metadata : Option Value → Dict Text Value
status_metadata (some v) = (lit "result_status", v) ∷ []
status_metadata none = []

-- `_result_metadata`; `none` is a `TypeError`.
unfoldable pub result_metadata : Dict Text Value → Option (Dict Text Value)
unfolding lookup insert sorted blocked_count
result_metadata result =
    policy_metadata (lookup (lit "metadata") result)
      (data_metadata (lookup (lit "data") result) (status_metadata (lookup (lit "status") result)))
