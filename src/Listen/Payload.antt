-- ===== src/Listen/Payload.antt =====
-- The payload of a NOTIFY: `work_payload` of src/dewey/listen_sync.py, and `_parse_payload` of
-- src/dewey/sqlalchemy/listen.py. The JSON text is that of Python's `json` module, a parameter:
-- `loads` returns `none` where it raises JSONDecodeError.
use dewey.Prelude.{String, Option, none, some, ◌≡◌, refl}
use dewey.Serialization.Objects.{get_key}
use dewey.Serialization.{Json, null, text, object, Fields, end, field}

pub record Codec : Type 0 where
  pub dumps : Json → String
  pub loads : String → Option Json

pub record WorkNotification : Type 0 where
  pub kind : String
  pub id : String
  pub queue : Option String

abbrev optional_text : Option String → Json
optional_text none = null
optional_text (some s) = text s

-- `value if isinstance(value, str) else None`
abbrev as_text : Option Json → Option String
as_text (some (text s)) = some s
as_text _ = none

abbrev text_or : Option Json → String → String
text_or (some (text s)) d = s
text_or _ d = d

-- Of valid JSON; `none` where it is no object, on which `data.get` raises AttributeError.
unfoldable pub read_notification : Json → Option WorkNotification
unfolding get_key
read_notification (object fs) = some (record {
  kind = text_or (get_key "kind" fs) "unknown";
  id = text_or (get_key "id" fs) "";
  queue = as_text (get_key "queue" fs);
})
read_notification _ = none

abbrev read_loaded : String → Option Json → Option WorkNotification
read_loaded payload none = some (record { kind = "unknown"; id = payload; queue = none })
read_loaded payload (some j) = read_notification j

abbrev pub payload_fields : String → String → Option String → Fields
payload_fields kind entry_id queue =
    field "kind" (text kind) (field "id" (text entry_id) (field "queue" (optional_text queue) end))

module _ (c : Codec) where
  unfoldable pub work_payload : String → String → Option String → String
  work_payload kind entry_id queue = c.dumps (object (payload_fields kind entry_id queue))

  unfoldable pub parse_payload : String → Option WorkNotification
  unfolding read_notification
  parse_payload payload = read_loaded payload (c.loads payload)

  -- What a listener reads is what the producer sent, whatever texts these are and whichever ORM the
  -- producer ran on, where `json` reads back the object that it wrote.
  pub parse_payload-work_payload :
      (kind entry_id : String) (queue : Option String)
      → let fs = payload_fields kind entry_id queue in
        c.loads (c.dumps (object fs)) ≡ some (object fs)
        → parse_payload (work_payload kind entry_id queue)
          ≡ some (record { kind = kind; id = entry_id; queue = queue })
  unfolding parse_payload work_payload get_key
  parse_payload-work_payload kind entry_id none h = rw h refl
  parse_payload-work_payload kind entry_id (some q) h = rw h refl
