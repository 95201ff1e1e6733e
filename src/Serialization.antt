-- ===== src/Serialization.antt =====
-- src/dewey/serialization.py: task arguments on their way to a JSON column.
pub mod Depth
pub mod Stability
pub mod Objects
use dewey.Prelude.{
  ℕ, suc, ◌+◌, String, Bool, true, false, Result, ok, err, ◌>>=◌, ltb, ℤ, Option, none, some,
  if◌then◌else◌,
}

-- What a JSON column holds. A finite float is its 64-bit pattern.
mutual
  pub data Json : Type 0 where
    null : Json
    text : String → Json
    boolean : Bool → Json
    integer : ℤ → Json
    finite : ℕ → Json
    array : Items → Json
    object : Fields → Json

  pub data Items : Type 0 where
    nil : Items
    cons : Json → Items → Items

  pub data Fields : Type 0 where
    end : Fields
    field : String → Json → Fields → Fields

-- A float as `encode_value` tells floats apart.
pub data Float : Type 0 where
  number : ℕ → Float
  nan inf neg_inf : Float

-- The key of a mapping: a string, or an object of another type.
pub data Key : Type 0 where
  str_key : String → Key
  other_key : Key

-- A Python object as the `isinstance` ladder sees it, one constructor for each rung, in the
-- ladder's order. A member of an enum that is also a `str` or an `int` is `str_` or `int_`, since
-- that rung stands first. `iso` has the text of `isoformat()`, `uuid` that of `str()`, `decimal`
-- whether the number is finite and the text of `str()`.
mutual
  pub data Value : Type 0 where
    none_ : Value
    str_ : String → Value
    bool_ : Bool → Value
    int_ : ℤ → Value
    float_ : Float → Value
    bytes_ : Value
    enum_ : Value → Value
    iso : String → Value
    uuid : String → Value
    decimal : Bool → String → Value
    mapping : Entries → Value
    set_ : Value
    sequence : Values → Value
    other : Value

  pub data Values : Type 0 where
    done : Values
    item : Value → Values → Values

  pub data Entries : Type 0 where
    stop : Entries
    entry : Key → Value → Entries → Entries

-- The ways in which `SerializationError` is raised; the text and the path are left out.
pub data SerializationError : Type 0 where
  nested_too_deep no_representation not_json_safe bad_key not_a_sequence not_a_mapping :
      SerializationError

abbrev pub max_depth : ℕ
max_depth = 10

abbrev Encoded : Type 0 → Type 0
Encoded = Result SerializationError

abbrev encode_float : Float → Encoded Json
encode_float (number bits) = ok (finite bits)
encode_float _ = err no_representation

-- The depth guard at the head of `encode_value`.
abbrev pub guarded {ℓ} :
    {A : Type ℓ} → ℕ → Result SerializationError A → Result SerializationError A
guarded d r = if ltb max_depth d then err nested_too_deep else r

-- `encode_value(value, _depth=d)` behind its guard, and its loops over the parts of a container,
-- whose first argument is the depth of the parts.
unfoldable mutual
  pub encode_rung : ℕ → Value → Result SerializationError Json
  encode_rung d none_ = ok null
  encode_rung d (str_ s) = ok (text s)
  encode_rung d (bool_ b) = ok (boolean b)
  encode_rung d (int_ n) = ok (integer n)
  encode_rung d (float_ x) = encode_float x
  encode_rung d bytes_ = err not_json_safe
  encode_rung d (enum_ v) = guarded (suc d) (encode_rung (suc d) v)
  encode_rung d (iso s) = ok (text s)
  encode_rung d (uuid s) = ok (text s)
  encode_rung d (decimal is_finite s) = if is_finite then ok (text s) else err no_representation
  encode_rung d (mapping es) = do fs ← encode_entries (suc d) es; ok (object fs)
  encode_rung d set_ = err not_json_safe
  encode_rung d (sequence vs) = do xs ← encode_items (suc d) vs; ok (array xs)
  encode_rung d other = err not_json_safe

  pub encode_items : ℕ → Values → Result SerializationError Items
  encode_items d done = ok nil
  encode_items d (item v vs) = do
    x ← guarded d (encode_rung d v)
    xs ← encode_items d vs
    ok (cons x xs)

  pub encode_entries : ℕ → Entries → Result SerializationError Fields
  encode_entries d stop = ok end
  encode_entries d (entry other_key v es) = err bad_key
  encode_entries d (entry (str_key k) v es) = do
    x ← guarded d (encode_rung d v)
    fs ← encode_entries d es
    ok (field k x fs)

-- `encode_value(value, _depth=d)`.
unfoldable pub encode_value : ℕ → Value → Result SerializationError Json
unfolding encode_rung
encode_value d v = guarded d (encode_rung d v)

unfoldable pub encode_args : Option Value → Result SerializationError Items
unfolding encode_items
encode_args none = ok nil
encode_args (some (sequence vs)) = encode_items 0 vs
encode_args (some v) = err not_a_sequence

unfoldable pub encode_kwargs : Option Value → Result SerializationError Fields
unfolding encode_entries
encode_kwargs none = ok end
encode_kwargs (some (mapping es)) = encode_entries 0 es
encode_kwargs (some v) = err not_a_mapping
