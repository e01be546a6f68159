-- ===== src/Protocol/Event.antt =====
-- internal/protocol/event.go: the events, and what emitter.go does to one before it is rendered.
-- A nil slice or map is `none`, so that `normalize` has something to do. The values that callers
-- put into `map[string]any` are JSON trees; `result` details also hold what the emitter adds.
use auto_mas_runtime.Base.{ℕ, ◌≡◌, refl, ap, Bool, List, [], ◌∷◌, Option, none, some, Bytes, map}

mutual
  pub data Json : Type 0 where
    null : Json
    boolean : Bool → Json
    number : Bytes → Json
    text : Bytes → Json
    array : Items → Json
    object : Fields → Json

  pub data Items : Type 0 where
    nil : Items
    cons : Json → Items → Items

  pub data Fields : Type 0 where
    end : Fields
    field : Bytes → Json → Fields → Fields

pub data EventType : Type 0 where
  type_hello type_progress type_state type_log type_warning type_error type_result : EventType

pub record Common : Type 0 where
  pub protocol : ℕ
  pub event_type : EventType
  pub operation_id : Bytes
  pub sequence : ℕ
  pub timestamp : Bytes

pub record WarningSummary : Type 0 where
  pub code : Bytes
  pub stage : Bytes
  pub message : Bytes
  pub retryable : Bool
  pub remediation : Option (List Bytes)
  pub details : Option Fields

-- A value of `details`: the caller's JSON, or what `resultDetails` adds.
pub data Detail : Type 0 where
  json : Json → Detail
  summaries : List WarningSummary → Detail
  count : ℕ → Detail
  flag : Bool → Detail

abbrev pub Details : Type 0
Details = List (Bytes × Detail)

pub record ErrorEvent : Type 0 where
  pub code : Bytes
  pub stage : Bytes
  pub message : Bytes
  pub retryable : Bool
  pub remediation : Option (List Bytes)
  pub details : Option Details

pub record ResultEvent : Type 0 where
  pub success : Bool
  pub code : Bytes
  pub stage : Bytes
  pub status : Bytes
  pub message : Bytes
  pub retryable : Bool
  pub remediation : Option (List Bytes)
  pub details : Option Details

pub record ProgressEvent : Type 0 where
  pub stage : Bytes
  pub status : Bytes
  pub current : Option ℕ
  pub total : Option ℕ
  pub percent : Option Bytes  -- a float64, as its decimal text
  pub item : Bytes
  pub source : Bytes
  pub bytes_per_second : Option ℕ
  pub message : Bytes

-- The business fields of an event; `hello` has the version, the command and the capabilities.
pub data Payload : Type 0 where
  hello : Bytes → Bytes → Option (List Bytes) → Payload
  progress : ProgressEvent → Payload
  state : Bytes → Bytes → Bytes → Option Details → Payload
  log : Bytes → Bytes → Bytes → Payload
  warning : WarningSummary → Payload
  error : ErrorEvent → Payload
  result : ResultEvent → Payload

pub record Event : Type 0 where
  pub common : Common
  pub payload : Payload

unfoldable pub type_of : Payload → EventType
type_of (hello v c cs) = type_hello
type_of (progress e) = type_progress
type_of (state s t m d) = type_state
type_of (log s t m) = type_log
type_of (warning w) = type_warning
type_of (error e) = type_error
type_of (result r) = type_result

-- A nil container becomes an empty one.
abbrev pub or_empty {ℓ} : {A : Type ℓ} → A → Option A → Option A
or_empty d none = some d
or_empty d (some a) = some a

abbrev pub normalize_warning : WarningSummary → WarningSummary
normalize_warning w = record w {
  remediation = or_empty [] w.remediation;
  details = or_empty end w.details;
}

-- The `normalize` methods.
unfoldable pub normalize : Payload → Payload
normalize (hello v c cs) = hello v c (or_empty [] cs)
normalize (progress e) = progress e
normalize (state s t m d) = state s t m (or_empty [] d)
normalize (log s t m) = log s t m
normalize (warning w) = warning (normalize_warning w)
normalize (error e) =
    error (record e { remediation = or_empty [] e.remediation; details = or_empty [] e.details })
normalize (result r) =
    result (record r { remediation = or_empty [] r.remediation; details = or_empty [] r.details })

-- `cloneJSONValue` and `cloneJSONObject`: a deep copy.
unfoldable mutual
  pub clone_json_value : Json → Json
  clone_json_value null = null
  clone_json_value (boolean b) = boolean b
  clone_json_value (number n) = number n
  clone_json_value (text t) = text t
  clone_json_value (array xs) = array (clone_items xs)
  clone_json_value (object fs) = object (clone_json_object fs)

  pub clone_items : Items → Items
  clone_items nil = nil
  clone_items (cons x xs) = cons (clone_json_value x) (clone_items xs)

  pub clone_json_object : Fields → Fields
  clone_json_object end = end
  clone_json_object (field k v fs) = field k (clone_json_value v) (clone_json_object fs)

mutual
  unfolding clone_json_value clone_items clone_json_object

  value_copy : (j : Json) → clone_json_value j ≡ j
  value_copy null = refl
  value_copy (boolean b) = refl
  value_copy (number n) = refl
  value_copy (text t) = refl
  value_copy (array xs) = ap array (items_copy xs)
  value_copy (object fs) = ap object (fields_copy fs)

  items_copy : (xs : Items) → clone_items xs ≡ xs
  items_copy nil = refl
  items_copy (cons x xs) = cc (value_copy x, items_copy xs)

  fields_copy : (fs : Fields) → clone_json_object fs ≡ fs
  fields_copy end = refl
  fields_copy (field k v fs) = cc (value_copy v, fields_copy fs)

clone_details : Option Fields → Option Fields
clone_details none = none
clone_details (some fs) = some (clone_json_object fs)

-- `cloneWarningSummary`; the copy of `Remediation` has the same elements.
unfoldable pub clone_warning_summary : WarningSummary → WarningSummary
unfolding clone_details
clone_warning_summary s = record s { details = clone_details s.details }

details_copy : (d : Option Fields) → clone_details d ≡ d
unfolding clone_details
details_copy none = refl
details_copy (some fs) = ap some (fields_copy fs)

-- A copy has the fields of the original.
pub clone_warning_summary_lem : (s : WarningSummary) → clone_warning_summary s ≡ s
unfolding clone_warning_summary
clone_warning_summary_lem s = ap (λ d. record s { details = d }) (details_copy s.details)

pub map-clone_warning_summary : (l : List WarningSummary) → map clone_warning_summary l ≡ l
map-clone_warning_summary [] = refl
map-clone_warning_summary (s ∷ l) = cc (clone_warning_summary_lem s, map-clone_warning_summary l)
