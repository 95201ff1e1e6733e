-- ===== src/Serialization/Objects.antt =====
-- A decoded JSON object as a dictionary: Python's `get`, assignment and `update`.
use dewey.Prelude.{String, Option, none, some, ◌≡◌, refl, arith, str_eq, eq_iff, if◌then◌else◌}
use dewey.Serialization.{Json, Fields, end, field}

-- d.get(key)
unfoldable pub get_key : String → Fields → Option Json
get_key key end = none
get_key key (field k j fs) = if str_eq k key then some j else get_key key fs

-- d[key] = value
unfoldable pub set_key : String → Json → Fields → Fields
set_key key v end = field key v end
set_key key v (field k j fs) = if str_eq k key then field k v fs else field k j (set_key key v fs)

-- d.update(other)
unfoldable pub update : Fields → Fields → Fields
unfolding set_key
update fs end = fs
update fs (field k v other) = update (set_key k v fs) other

abbrev pub or_else : Option Json → Option Json → Option Json
or_else (some a) b = some a
or_else none b = b

-- No key twice.
unfoldable pub IsObject : Fields → Type 0
IsObject end = Unit
IsObject (field k v fs) = (get_key k fs ≡ none) × IsObject fs

pub get_key-set_key :
    (k key : String) (v : Json) (fs : Fields)
    → get_key k (set_key key v fs) ≡ (if str_eq key k then some v else get_key k fs)
unfolding get_key set_key
get_key-set_key k key v end = refl
get_key-set_key k key v (field i j fs) =
    ground (arith, get_key-set_key k key v fs, eq_iff i key, eq_iff i k, eq_iff key k)

-- The other dictionary's value, else the value that was there.
pub get_key-update :
    (k : String) (fs other : Fields)
    → IsObject other
    → get_key k (update fs other) ≡ or_else (get_key k other) (get_key k fs)
unfolding update get_key IsObject
get_key-update k fs end h = refl
get_key-update k fs (field i v other) (absent, h) =
    ground (arith, get_key-update k (set_key i v fs) other h, get_key-set_key k i v fs, eq_iff i k)
