-- ===== src/Application/Codec.antt =====
-- The encodings that internal/application puts between JSON and its opaque texts: encoding/json and
-- base64.RawURLEncoding, as far as the services call them. They are parameters of the services.
use taskpulse.Prelude.{ℕ, String, Option}
use taskpulse.Event.{Json}

pub record LeaseTokenPayload : Type 0 where
  pub task_id : String
  pub worker_id : String
  pub version : ℕ

-- What the cursor of a list of tasks holds.
pub record TaskListCursor : Type 0 where
  pub created_at : ℕ
  pub id : String

pub record Codec : Type 1 where
  pub json : Json
  pub encode_base64 : String → String
  pub decode_base64 : String → Option String
  -- `json.Unmarshal` into the payload of a lease token; a missing field is empty or 0.
  pub unmarshal_lease_token : String → Option LeaseTokenPayload
  -- `json.Unmarshal` into a cursor; a missing field is empty or the zero time.
  pub unmarshal_cursor : String → Option TaskListCursor
