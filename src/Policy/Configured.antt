-- ===== src/Policy/Configured.antt =====
-- What `configure_policies` of src/dewey/policy.py accepts and leaves in the project's layer.
use dewey.Prelude.{
  String, true, Option, none, some, [], ◌∷◌, ◌≡◌, refl, arith, ok, >>=-eq-ok, str_eq, Bool-cases,
  inl, inr, eq_iff,
}
use dewey.Prelude.Dict.{lookup, assign, lookup-assign}
use dewey.Policy.Options.{
  Given, Options, Layer, validate, validate_all, configure_each, configure_policies,
}
use dewey.Policy.Accepted.{is_permitted, validate_accepts}

-- No key twice, as in every dictionary.
unfoldable pub IsDict : Layer → Type 0
IsDict [] = Unit
IsDict ((k, v) ∷ d) = (lookup k d ≡ none) × IsDict d

abbrev pub or_else {ℓ} : {A : Type ℓ} → Option A → Option A → Option A
or_else (some a) b = some a
or_else none b = b

lookup-configure_each :
    (policies layer : Layer) (t : String)
    → IsDict policies
    → lookup t (configure_each policies layer) ≡ or_else (lookup t policies) (lookup t layer)
unfolding configure_each lookup IsDict
lookup-configure_each [] layer t d = refl
lookup-configure_each ((k, o) ∷ policies) layer t (absent, d) = ground (
  arith,
  lookup-configure_each policies (assign k o layer) t d,
  lookup-assign k t o layer,
  eq_iff k t,
)

validated_each :
    (policies : Layer) (t : String) (o : Options)
    → validate_all policies ≡ ok tt
    → lookup t policies ≡ some o
    → (o' : Options) × (validate o ≡ ok o')
unfolding validate_all lookup
validated_each [] t o valid found = ground arith
validated_each ((k, w) ∷ policies) t o valid found =
    let (o', first, rest) = >>=-eq-ok (validate w) _ valid in
    elim (Bool-cases (str_eq k t)) [
      | inl y ↦ (o', ground (arith, found, y, first))
      | inr n ↦ validated_each policies t o rest (ground (arith, found, n))
    ]

-- A project's configuration that is not refused holds permitted options only; and after it each task
-- type has the options given for it, else those that it had before. No task type is given twice.
configured :
    (policies layer layer' : Layer)
    → IsDict policies
    → configure_policies policies layer ≡ ok layer'
    → ((t : String) → lookup t layer' ≡ or_else (lookup t policies) (lookup t layer))
      × ((t : String) (o : Options)
          → lookup t policies ≡ some o
          → (k : String) (v : Given) → lookup k o ≡ some v
          → is_permitted k v ≡ true)
unfolding configure_policies
configured policies layer layer' d h =
    let (_, valid, stored) = >>=-eq-ok (validate_all policies) _ h in
    (
      λ t. ground (arith, stored, lookup-configure_each policies layer t d),
      λ t o found. (validate_accepts o).0 (validated_each policies t o valid found),
    )
