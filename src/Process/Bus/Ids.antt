-- ===== src/Process/Bus/Ids.antt =====
-- `extractTaskUUID`: the id of a task among the fields of a message.
use shortcut.Prelude.{Bytes, String, List, [], ◌∷◌, Option, none, some, if◌then◌else◌, str_eq}
use shortcut.Runtime.{Env, Uuid, Value, XMessage}

-- `message.Values[key]`
unfoldable pub field : String → List (String × Value) → Option Value
field k [] = none
field k ((j, v) ∷ m) = if str_eq k j then some v else field k m

abbrev pub candidates : List String
candidates = "id" ∷ "ID" ∷ "task_id" ∷ "taskId" ∷ []

-- The text of a value, by the cases of the `switch`: a byte slice and a value that is no
-- `fmt.Stringer` have none.
abbrev pub id_text : Value → Option Bytes
id_text (Value.str s) = some s
id_text (Value.bytes _) = none
id_text (Value.other stringer _) = stringer

abbrev pub and_then : {A B : Type 0} → Option A → (A → Option B) → Option B
and_then none f = none
and_then (some a) f = f a

module _ (env : Env) where
  -- What one round of the loop finds under a key.
  unfoldable pub candidate_id : List (String × Value) → String → Option Uuid
  unfolding field
  candidate_id values key =
      and_then (field key values) (λ raw. and_then (id_text raw) env.uuid_parse)

  abbrev or_first : Option Uuid → Option Uuid → Option Uuid
  or_first (some u) rest = some u
  or_first none rest = rest

  -- The loop over the candidates.
  unfoldable pub first_candidate : List (String × Value) → List String → Option Uuid
  unfolding candidate_id
  first_candidate values [] = none
  first_candidate values (key ∷ keys) =
      or_first (candidate_id values key) (first_candidate values keys)

  -- `(uuid.Nil, false)` is none.
  unfoldable pub extract_task_uuid : XMessage → Option Uuid
  unfolding first_candidate
  extract_task_uuid message = first_candidate message.values candidates
