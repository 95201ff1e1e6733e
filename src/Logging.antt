-- ===== src/Logging.antt =====
-- The trace context of src/dewey/core/logging.py: a dictionary of correlation ids that goes from the
-- producer through the row's metadata to the handler. The context variable is the state; a token is
-- the value that it had. Attaching the context to log records is left out.
pub mod Carried
use dewey.Prelude.{
  String, Bool, true, false, Option, none, some, not, pos, zero, ◌%◌, ◌^◌, ◌==◌, str_eq,
  if◌then◌else◌,
}
use dewey.Serialization.{
  Json, null, text, boolean, integer, finite, array, object, Items, nil, Fields, end, field,
}
use dewey.Serialization.Objects.{get_key, set_key, update}

abbrev pub Context : Type 0
Context = Option Fields

abbrev pub get_trace_context : Context → Fields
get_trace_context none = end
get_trace_context (some ctx) = ctx

-- `dict(ctx) if ctx else None`
abbrev pub set_trace_context : Fields → Context
set_trace_context end = none
set_trace_context (field k v fs) = some (field k v fs)

unfoldable pub update_trace_context : Fields → Context → Context
update_trace_context fields ctx = some (update (get_trace_context ctx) fields)

-- Python's truth of a decoded JSON value; 0.0 and -0.0 are the floats of 0.
abbrev is_true : Json → Bool
is_true null = false
is_true (text s) = not (str_eq s "")
is_true (boolean b) = b
is_true (integer (pos zero)) = false
is_true (finite bits) = not (bits % 2 ^ 63 == 0)
is_true (array nil) = false
is_true (object end) = false
is_true j = true

-- `dict(value)`, where `dict_of` is `dict` on what is no dictionary; `none` where it raises.
abbrev dict_ : (Json → Option Fields) → Json → Option Fields
dict_ dict_of (object fs) = some fs
dict_ dict_of j = dict_of j

-- `dict(value or {})`, of what stands under "trace".
unfoldable pub as_dict : (Json → Option Fields) → Option Json → Option Fields
as_dict dict_of none = some end
as_dict dict_of (some j) = if is_true j then dict_ dict_of j else some end

abbrev pub with_trace : Fields → Option Fields → Fields → Option Fields
with_trace out none ctx = none
with_trace out (some existing) ctx = some (set_key "trace" (object (update existing ctx)) out)

abbrev pub carried : (Json → Option Fields) → Fields → Fields → Option Fields
carried dict_of out end = some out
carried dict_of out (field k v ctx) =
    with_trace out (as_dict dict_of (get_key "trace" out)) (field k v ctx)

abbrev pub with_extra : Fields → Option Fields → Option Fields
with_extra extra none = none
with_extra extra (some out) = some (update out extra)

unfoldable pub bind_to_metadata : (Json → Option Fields) → Fields → Fields → Context → Option Fields
unfolding as_dict
bind_to_metadata dict_of metadata extra ctx =
    with_extra extra (carried dict_of metadata (get_trace_context ctx))

abbrev pub as_context : Option Json → Fields
as_context (some (object fs)) = fs
as_context _ = end

unfoldable pub extract_trace_context : Fields → Fields
extract_trace_context metadata = as_context (get_key "trace" metadata)

-- `set_trace_context(extract_trace_context(metadata))`, the handler, and `reset_trace_context(token)`
-- in `finally`: the handler leaves a result, or an exception, and a context.
unfoldable pub traced {ℓ} : {A : Type ℓ} → Fields → (Context → A × Context) → Context → A × Context
unfolding extract_trace_context
traced metadata handler token =
    ((handler (set_trace_context (extract_trace_context metadata))).0, token)
