-- ===== src/Serialization/Stability.antt =====
-- Encoding what has been encoded: JSON values are Python values, and stay what they are.
use dewey.Prelude.{ℕ, ℤ, suc, ap, ◌∙◌, ◌+◌, ◌≤◌, ◌≡◌, refl, ok, arith}
use dewey.Serialization.{
  Json, null, text, boolean, integer, finite, array, object, Items, nil, cons, Fields, end, field,
  Value, none_, str_, bool_, int_, float_, mapping, sequence, Values, done, item, Entries, stop,
  entry, str_key, number, max_depth, encode_value, encode_rung, encode_items, encode_entries,
}
use dewey.Serialization.Depth.{depth, depth_items, depth_fields, depth-encode_value}

-- What a column gives back for a finite float. PostgreSQL's JSON keeps its text and gives back the
-- float; JSONB keeps a number, of which it gives back some as ints (1e23 as 10 ** 23).
pub data Number : Type 0 where
  as_float : ℕ → Number
  as_int : ℤ → Number

abbrev number_value : Number → Value
number_value (as_float bits) = float_ (number bits)
number_value (as_int n) = int_ n

abbrev number_json : Number → Json
number_json (as_float bits) = finite bits
number_json (as_int n) = integer n

encode_rung-number_value :
    (d : ℕ) (n : Number) → encode_rung d (number_value n) ≡ ok (number_json n)
unfolding encode_rung
encode_rung-number_value d (as_float bits) = refl
encode_rung-number_value d (as_int n) = refl

module _ (read : ℕ → Number) where
  -- What `json.loads` makes of the column, as a Python value.
  abbrev mutual
    pub loaded : Json → Value
    loaded null = none_
    loaded (text s) = str_ s
    loaded (boolean b) = bool_ b
    loaded (integer n) = int_ n
    loaded (finite bits) = number_value (read bits)
    loaded (array xs) = sequence (loaded_items xs)
    loaded (object fs) = mapping (loaded_fields fs)

    pub loaded_items : Items → Values
    loaded_items nil = done
    loaded_items (cons x xs) = item (loaded x) (loaded_items xs)

    pub loaded_fields : Fields → Entries
    loaded_fields end = stop
    loaded_fields (field k x fs) = entry (str_key k) (loaded x) (loaded_fields fs)

  -- The same JSON, with each float as the column gives it back.
  abbrev mutual
    pub kept : Json → Json
    kept null = null
    kept (text s) = text s
    kept (boolean b) = boolean b
    kept (integer n) = integer n
    kept (finite bits) = number_json (read bits)
    kept (array xs) = array (kept_items xs)
    kept (object fs) = object (kept_fields fs)

    pub kept_items : Items → Items
    kept_items nil = nil
    kept_items (cons x xs) = cons (kept x) (kept_items xs)

    pub kept_fields : Fields → Fields
    kept_fields end = end
    kept_fields (field k x fs) = field k (kept x) (kept_fields fs)

  mutual
    unfolding encode_rung encode_items encode_entries

    encode_rung-loaded :
        (d : ℕ) (j : Json) → d + depth j ≤ max_depth → encode_rung d (loaded j) ≡ ok (kept j)
    encode_rung-loaded d null h = refl
    encode_rung-loaded d (text s) h = refl
    encode_rung-loaded d (boolean b) h = refl
    encode_rung-loaded d (integer n) h = refl
    encode_rung-loaded d (finite bits) h = encode_rung-number_value d (read bits)
    encode_rung-loaded d (array xs) h = rw (encode_items-loaded (suc d) xs (omega arith))
    encode_rung-loaded d (object fs) h = rw (encode_entries-loaded (suc d) fs (omega arith))

    encode_items-loaded :
        (d : ℕ) (xs : Items)
        → d + depth_items xs ≤ suc max_depth
        → encode_items d (loaded_items xs) ≡ ok (kept_items xs)
    encode_items-loaded d nil h = refl
    encode_items-loaded d (cons x xs) h =
        ground (arith, encode_rung-loaded d x (omega arith), encode_items-loaded d xs (omega arith))

    encode_entries-loaded :
        (d : ℕ) (fs : Fields)
        → d + depth_fields fs ≤ suc max_depth
        → encode_entries d (loaded_fields fs) ≡ ok (kept_fields fs)
    encode_entries-loaded d end h = refl
    encode_entries-loaded d (field k x fs) h =
        ground
          (arith, encode_rung-loaded d x (omega arith), encode_entries-loaded d fs (omega arith))

  -- A JSON value that is not nested too deeply is accepted when it is read back.
  encode_value-loaded :
      (d : ℕ) (j : Json) → d + depth j ≤ max_depth → encode_value d (loaded j) ≡ ok (kept j)
  unfolding encode_value
  encode_value-loaded d j h = ground (arith, encode_rung-loaded d j h)

  mutual
    kept-eq : ((bits : ℕ) → read bits ≡ as_float bits) → (j : Json) → kept j ≡ j
    kept-eq h null = refl
    kept-eq h (text s) = refl
    kept-eq h (boolean b) = refl
    kept-eq h (integer n) = refl
    kept-eq h (finite bits) = rw (h bits) refl
    kept-eq h (array xs) = ap array (kept_items-eq h xs)
    kept-eq h (object fs) = ap object (kept_fields-eq h fs)

    kept_items-eq : ((bits : ℕ) → read bits ≡ as_float bits) → (xs : Items) → kept_items xs ≡ xs
    kept_items-eq h nil = refl
    kept_items-eq h (cons x xs) = rw (kept-eq h x, kept_items-eq h xs) refl

    kept_fields-eq : ((bits : ℕ) → read bits ≡ as_float bits) → (fs : Fields) → kept_fields fs ≡ fs
    kept_fields-eq h end = refl
    kept_fields-eq h (field k x fs) = rw (kept-eq h x, kept_fields-eq h fs) refl

  -- What `encode_value` returned, read back from a column that gives floats back as they are, is
  -- encoded again at the same depth to what it was.
  encode_value_idem :
      (d : ℕ) (v : Value) (j : Json)
      → ((bits : ℕ) → read bits ≡ as_float bits)
      → encode_value d v ≡ ok j
      → encode_value d (loaded j) ≡ ok j
  encode_value_idem d v j h e =
      encode_value-loaded d j (depth-encode_value d v j e) ∙ ap ok (kept-eq h j)

  -- What `encode_value` returned, read back from the column and encoded again at the same depth, is
  -- accepted, and unchanged but for its floats, each of which is what the column gives back for it, a
  -- float or an int.
  pub encode_value_again :
      (d : ℕ) (v : Value) (j : Json)
      → encode_value d v ≡ ok j
      → encode_value d (loaded j) ≡ ok (kept j)
  encode_value_again d v j e = encode_value-loaded d j (depth-encode_value d v j e)
