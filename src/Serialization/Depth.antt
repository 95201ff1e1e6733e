-- ===== src/Serialization/Depth.antt =====
-- The nesting of what `encode_value` returns.
use dewey.Prelude.{ℕ, suc, ◌+◌, ◌≤◌, ◌≡◌, max, arith, ok, >>=-eq-ok}
use dewey.Serialization.{
  Json, null, text, boolean, integer, finite, array, object, Items, nil, cons, Fields, end, field,
  Value, none_, str_, bool_, int_, float_, bytes_, enum_, iso, uuid, decimal, mapping, set_,
  sequence, other, Values, done, item, Entries, stop, entry, str_key, other_key, max_depth, guarded,
  encode_value, encode_rung, encode_items, encode_entries,
}

-- How many containers enclose the innermost value.
abbrev mutual
  pub depth : Json → ℕ
  depth null = 0
  depth (text s) = 0
  depth (boolean b) = 0
  depth (integer n) = 0
  depth (finite n) = 0
  depth (array xs) = depth_items xs
  depth (object fs) = depth_fields fs

  pub depth_items : Items → ℕ
  depth_items nil = 0
  depth_items (cons x xs) = max (suc (depth x)) (depth_items xs)

  pub depth_fields : Fields → ℕ
  depth_fields end = 0
  depth_fields (field k x fs) = max (suc (depth x)) (depth_fields fs)

mutual
  unfolding encode_rung encode_items encode_entries

  depth-encode_rung :
      (d : ℕ) (v : Value) (j : Json)
      → d ≤ max_depth
      → encode_rung d v ≡ ok j
      → d + depth j ≤ max_depth
  depth-encode_rung d none_ j h e = ground arith
  depth-encode_rung d (str_ s) j h e = ground arith
  depth-encode_rung d (bool_ b) j h e = ground arith
  depth-encode_rung d (int_ n) j h e = ground arith
  depth-encode_rung d (float_ x) j h e = ground arith
  depth-encode_rung d bytes_ j h e = cc
  depth-encode_rung d (enum_ v) j h e = ground (arith, depth-encode_rung (suc d) v j)
  depth-encode_rung d (iso s) j h e = ground arith
  depth-encode_rung d (uuid s) j h e = ground arith
  depth-encode_rung d (decimal f s) j h e = ground arith
  depth-encode_rung d (mapping es) j h e =
      let (fs, p, q) = >>=-eq-ok (encode_entries (suc d) es) (λ fs. ok (object fs)) e in
      ground (arith, depth-encode_entries (suc d) es fs (omega arith) p)
  depth-encode_rung d set_ j h e = cc
  depth-encode_rung d (sequence vs) j h e =
      let (xs, p, q) = >>=-eq-ok (encode_items (suc d) vs) (λ xs. ok (array xs)) e in
      ground (arith, depth-encode_items (suc d) vs xs (omega arith) p)
  depth-encode_rung d other j h e = cc

  depth-encode_items :
      (d : ℕ) (vs : Values) (xs : Items)
      → d ≤ suc max_depth
      → encode_items d vs ≡ ok xs
      → d + depth_items xs ≤ suc max_depth
  depth-encode_items d done xs h e = ground arith
  depth-encode_items d (item v vs) xs h e =
      let (x, p, q) = >>=-eq-ok (guarded d (encode_rung d v)) _ e in
      let (ys, p', q') = >>=-eq-ok (encode_items d vs) (λ ys. ok (cons x ys)) q in
      ground (arith, depth-encode_rung d v x, depth-encode_items d vs ys h p')

  depth-encode_entries :
      (d : ℕ) (es : Entries) (fs : Fields)
      → d ≤ suc max_depth
      → encode_entries d es ≡ ok fs
      → d + depth_fields fs ≤ suc max_depth
  depth-encode_entries d stop fs h e = ground arith
  depth-encode_entries d (entry other_key v es) fs h e = cc
  depth-encode_entries d (entry (str_key k) v es) fs h e =
      let (x, p, q) = >>=-eq-ok (guarded d (encode_rung d v)) _ e in
      let (gs, p', q') = >>=-eq-ok (encode_entries d es) (λ gs. ok (field k x gs)) q in
      ground (arith, depth-encode_rung d v x, depth-encode_entries d es gs h p')

-- Whatever `encode_value` returns at depth d is nested so that no value in it is deeper than
-- `max_depth`, counted from d.
pub depth-encode_value :
    (d : ℕ) (v : Value) (j : Json) → encode_value d v ≡ ok j → d + depth j ≤ max_depth
unfolding encode_value
depth-encode_value d v j e = ground (arith, depth-encode_rung d v j)
