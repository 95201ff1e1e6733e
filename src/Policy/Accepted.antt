-- ===== src/Policy/Accepted.antt =====
-- What `_validate` of src/dewey/policy.py accepts, option by option.
use text.Mathlib.TextPositions.{eq_refl}
use dewey.Prelude.{
  String, Bool, true, false, ◌||◌, Option, none, some, [], ◌∷◌, ◌≡◌, refl, sym, ◌∙◌, ◌↔◌, arith, ok,
  >>=-eq-ok, str_eq, eq_iff, if◌then◌else◌,
}
use dewey.Prelude.Dict.{lookup, assign, lookup-assign}
use dewey.Policy.Options.{
  Given, class_value, tuple_value, Options, is_policy_field, unknown, is_attempts, is_classes,
  is_backoff, as_tuple, check_fields, check_max_attempts, check_backoff, validate,
}

-- An option that the documentation permits, whatever the others are.
abbrev pub is_permitted : String → Given → Bool
is_permitted k v =
    if str_eq k "max_attempts"
    then is_attempts v
    else if str_eq k "retry_on" || str_eq k "fail_fast_on"
    then is_classes v
    else if str_eq k "backoff"
    then is_backoff v
    else str_eq k "queue" || str_eq k "priority"

unknown-eq-nil :
    (overrides : Options) (k : String) (v : Given)
    → unknown overrides ≡ []
    → lookup k overrides ≡ some v
    → is_policy_field k ≡ true
unfolding unknown lookup
unknown-eq-nil [] k v known found = ground arith
unknown-eq-nil ((j, w) ∷ overrides) k v known found =
    ground (arith, unknown-eq-nil overrides k v, eq_iff j k)

unknown_none :
    (overrides : Options)
    → ((k : String) (v : Given) → lookup k overrides ≡ some v → is_policy_field k ≡ true)
    → unknown overrides ≡ []
unfolding unknown lookup
unknown_none [] all = refl
unknown_none ((j, w) ∷ overrides) all =
    let head : is_policy_field j ≡ true = ground (arith, all j w, eq_refl j) in
    let tail : unknown overrides ≡ [] =
      unknown_none overrides (λ k v found. ground (arith, all k v, head, eq_iff j k)) in
    ground (arith, head, tail)

permitted_field : (k : String) (v : Given) → is_permitted k v ≡ true → is_policy_field k ≡ true
unfolding is_policy_field
permitted_field k v h = ground arith

abbrev Has : Option Given → (Given → Bool) → Type 0
Has given test = (v : Given) → given ≡ some v → test v ≡ true

as_tuple-eq-ok :
    (key : String) (overrides o : Options) (given : Option Given)
    → as_tuple key overrides given ≡ ok o
    → Has given is_classes × ((j : String) → str_eq key j ≡ false → lookup j o ≡ lookup j overrides)
unfolding as_tuple
as_tuple-eq-ok key overrides o none h = (λ v e. cc, λ j d. ground arith)
as_tuple-eq-ok key overrides o (some (class_value c)) h = (
  λ v e. ground arith,
  λ j d. ground (arith, h, d, lookup-assign key j (tuple_value (c ∷ [])) overrides),
)
as_tuple-eq-ok key overrides o (some given) h = (λ v e. ground arith, λ j d. ground arith)

as_tuple_classes :
    (key : String) (overrides : Options) (given : Option Given)
    → Has given is_classes
    → (o : Options) × (as_tuple key overrides given ≡ ok o)
      × ((j : String) → str_eq key j ≡ false → lookup j o ≡ lookup j overrides)
unfolding as_tuple
as_tuple_classes key overrides none h = (overrides, refl, λ j d. refl)
as_tuple_classes key overrides (some (tuple_value cs)) h = (overrides, refl, λ j d. refl)
as_tuple_classes key overrides (some (class_value c)) h = (
  assign key (tuple_value (c ∷ [])) overrides,
  refl,
  λ j d. ground (arith, d, lookup-assign key j (tuple_value (c ∷ [])) overrides),
)
as_tuple_classes key overrides (some given) h =
    let permitted : is_classes given ≡ true = h given refl in (overrides, ground arith, λ j d. refl)

attempts_checked : (given : Option Given) → Has given is_attempts → check_max_attempts given ≡ ok tt
unfolding check_max_attempts
attempts_checked none h = refl
attempts_checked (some v) h = rw (h v refl) refl

backoff_checked :
    (o : Options) (given : Option Given) → Has given is_backoff → check_backoff o given ≡ ok o
unfolding check_backoff
backoff_checked o none h = refl
backoff_checked o (some v) h = rw (h v refl) refl

-- The conditions on the single options, taken together.
module _ (overrides : Options) where
  all_permitted :
      unknown overrides ≡ []
      → Has (lookup "max_attempts" overrides) is_attempts
      → Has (lookup "retry_on" overrides) is_classes
      → Has (lookup "fail_fast_on" overrides) is_classes
      → Has (lookup "backoff" overrides) is_backoff
      → (k : String) (v : Given) → lookup k overrides ≡ some v
      → is_permitted k v ≡ true
  unfolding is_policy_field
  all_permitted known m r f b k v found = ground (
    arith,
    unknown-eq-nil overrides k v,
    m v,
    r v,
    f v,
    b v,
    eq_iff k "max_attempts",
    eq_iff k "retry_on",
    eq_iff k "fail_fast_on",
    eq_iff k "backoff",
  )

  validated_checks :
      (o : Options)
      → validate overrides ≡ ok o
      → (unknown overrides ≡ [])
        × Has (lookup "max_attempts" overrides) is_attempts
        × ((a : Options) × (b : Options) × (as_tuple "retry_on" overrides
                (lookup "retry_on" overrides)
              ≡ ok a)
            × (as_tuple "fail_fast_on" a (lookup "fail_fast_on" a) ≡ ok b)
            × (check_backoff b (lookup "backoff" b) ≡ ok o))
  unfolding validate check_fields check_max_attempts
  validated_checks o h =
      let (_, checked, rest) = >>=-eq-ok _ _ h in
      let (_, fields, attempts) = >>=-eq-ok (check_fields (unknown overrides)) _ checked in
      let (a, r, after) = >>=-eq-ok _ _ rest in
      let (b, f, e) = >>=-eq-ok _ _ after in
      (ground (arith, fields), λ v g. ground (arith, attempts, g), (a, b, r, f, e))

  validated_permitted :
      (o : Options)
      → validate overrides ≡ ok o
      → (k : String) (v : Given) → lookup k overrides ≡ some v
      → is_permitted k v ≡ true
  unfolding check_backoff
  validated_permitted o h =
      let (known, m, (a, b, r, f, e)) = validated_checks o h in
      let (r_classes, r_others) =
        as_tuple-eq-ok "retry_on" overrides a (lookup "retry_on" overrides) r in
      let (f_classes, f_others) = as_tuple-eq-ok "fail_fast_on" a b (lookup "fail_fast_on" a) f in
      all_permitted known m r_classes (λ v g. f_classes v (r_others "fail_fast_on" refl ∙ g))
        (λ v g. ground (arith, e, g, f_others "backoff" refl, r_others "backoff" refl))

  validated :
      (a b : Options)
      → check_fields (unknown overrides) ≡ ok tt
      → check_max_attempts (lookup "max_attempts" overrides) ≡ ok tt
      → as_tuple "retry_on" overrides (lookup "retry_on" overrides) ≡ ok a
      → as_tuple "fail_fast_on" a (lookup "fail_fast_on" a) ≡ ok b
      → check_backoff b (lookup "backoff" b) ≡ ok b
      → validate overrides ≡ ok b
  unfolding validate
  validated a b fields attempts r f e = rw (fields, attempts, r, f, e) refl

  permitted_validated :
      ((k : String) (v : Given) → lookup k overrides ≡ some v → is_permitted k v ≡ true)
      → (o : Options) × (validate overrides ≡ ok o)
  unfolding validate check_fields check_max_attempts check_backoff
  permitted_validated all =
      let known : unknown overrides ≡ [] =
        unknown_none overrides (λ k v g. permitted_field k v (all k v g)) in
      let (a, r, r_others) =
        as_tuple_classes "retry_on" overrides (lookup "retry_on" overrides) (all "retry_on") in
      let (b, f, f_others) =
        as_tuple_classes "fail_fast_on" a (lookup "fail_fast_on" a)
          (λ v g. all "fail_fast_on" v (sym (r_others "fail_fast_on" refl) ∙ g)) in
      (
        b,
        validated a b (ground (arith, known))
            (attempts_checked (lookup "max_attempts" overrides) (all "max_attempts")) r f
            (backoff_checked b (lookup "backoff" b) (λ v g.
              all "backoff" v (sym (r_others "backoff" refl) ∙ sym (f_others "backoff" refl) ∙ g))),
      )

-- Validation goes through exactly where each option given is one that is permitted, whatever the
-- others are.
pub validate_accepts :
    (overrides : Options)
    → ((o : Options) × (validate overrides ≡ ok o))
      ↔ ((k : String) (v : Given) → lookup k overrides ≡ some v → is_permitted k v ≡ true)
validate_accepts overrides =
    (λ (o, h). validated_permitted overrides o h, permitted_validated overrides)
