-- ===== src/Admission/Cooldown/Enforced.antt =====
-- What a change is that `validate_cooldown` finds no error in.
use dewey.Prelude.{
  ℕ, ◌+◌, ◌≤◌, String, Bool, true, false, Option, none, some, List, [], ◌∷◌, ◌++◌, ◌≡◌, ◌⊎◌, inl,
  inr, refl, arith, All, if◌then◌else◌,
}
use dewey.Admission.{Package}
use dewey.Admission.Hotfix.{PullRequest, hotfix_exception}
use dewey.Admission.Cooldown.{
  CooldownError, Registries, is_fresh, Checked, add_check, Located, uploaded, committed,
  check_packages, check_pins, changed_packages, changed_pins, Change, judged, against,
  validate_cooldown,
}

-- Published at a known time that the cooldown has passed since.
abbrev pub IsSettled : ℕ → ℕ → Option ℕ → Type 0
IsSettled now cooldown published = (t : ℕ) × (published ≡ some t) × (t + cooldown ≤ now)

-- A check that found no error, of something that is settled, or of anything under a hotfix.
abbrev pub IsPassed : Bool → ℕ → ℕ → List CooldownError × Option ℕ → Type 0
IsPassed bypassed now cooldown (errors, published) =
    (errors ≡ []) × ((bypassed ≡ true) ⊎ IsSettled now cooldown published)

append_nil : (xs ys : List CooldownError) → xs ++ ys ≡ [] → (xs ≡ []) × (ys ≡ [])
append_nil [] ys h = (refl, h)
append_nil (x ∷ xs) ys h = cc h

is_fresh-IsSettled :
    (now cooldown : ℕ) (published : Option ℕ)
    → is_fresh now cooldown published ≡ false
    → IsSettled now cooldown published
is_fresh-IsSettled now cooldown none h = cc h
is_fresh-IsSettled now cooldown (some t) h = (t, refl, ground arith)

-- Errors of a check and of the rest, under a hotfix or with nothing too fresh.
abbrev IsClear : Bool → Checked → Type 0
IsClear bypassed (errors, fresh) = (errors ≡ []) × ((if bypassed then [] else fresh) ≡ [])

add_check-IsClear :
    (bypassed fresh : Bool) (e : CooldownError) (own : List CooldownError) (rest : Checked)
    → IsClear bypassed (add_check fresh e own rest)
    → (own ≡ []) × ((bypassed ≡ true) ⊎ (fresh ≡ false)) × IsClear bypassed rest
add_check-IsClear true fresh e own (errors, others) (h, k) =
    let (a, b) = append_nil own errors h in (a, inl refl, (b, k))
add_check-IsClear false true e own (errors, others) (h, k) = cc k
add_check-IsClear false false e own (errors, others) (h, k) =
    let (a, b) = append_nil own errors h in (a, inr refl, (b, k))

passed :
    (bypassed : Bool) (now cooldown : ℕ) (errors : List CooldownError) (published : Option ℕ)
    → errors ≡ []
    → (bypassed ≡ true) ⊎ (is_fresh now cooldown published ≡ false)
    → IsPassed bypassed now cooldown (errors, published)
passed bypassed now cooldown errors published e (inl b) = (e, inl b)
passed bypassed now cooldown errors published e (inr f) =
    (e, inr (is_fresh-IsSettled now cooldown published f))

module _ (r : Registries) (verify_canonical bypassed : Bool) (now cooldown : ℕ) where
  check_packages_passed :
      (ps : List Package)
      → IsClear bypassed (check_packages r verify_canonical now cooldown ps)
      → All (λ p. IsPassed bypassed now cooldown (uploaded r verify_canonical p)) ps
  unfolding check_packages
  check_packages_passed [] h = tt
  check_packages_passed (p ∷ ps) h =
      let (own, ok_, rest) =
        add_check-IsClear bypassed _ _ _ (check_packages r verify_canonical now cooldown ps) h in
      (passed bypassed now cooldown _ _ own ok_, check_packages_passed ps rest)

  check_pins_passed :
      (ps : List Located)
      → IsClear bypassed (check_pins r verify_canonical now cooldown ps)
      → All (λ p. IsPassed bypassed now cooldown (committed r verify_canonical p.1)) ps
  unfolding check_pins
  check_pins_passed [] h = tt
  check_pins_passed ((path, pin) ∷ ps) h =
      let (own, ok_, rest) =
        add_check-IsClear bypassed _ _ _ (check_pins r verify_canonical now cooldown ps) h in
      (passed bypassed now cooldown _ _ own ok_, check_pins_passed ps rest)

judged-IsClear :
    (bypassed : Bool) (a : Checked) (workflow : List CooldownError) (b : Checked)
    → judged bypassed a workflow b ≡ []
    → IsClear bypassed a × (workflow ≡ []) × IsClear bypassed b
judged-IsClear true (errors, fresh) workflow (errors', fresh') h =
    let (x, y) = append_nil errors _ h in
    let (z, w) = append_nil workflow _ y in
    let (u, v) = append_nil errors' _ w in ((x, refl), z, (u, refl))
judged-IsClear false (errors, fresh) workflow (errors', fresh') h =
    let (x, y) = append_nil errors _ h in
    let (z, w) = append_nil workflow _ y in
    let (u, v) = append_nil errors' _ w in
    let (s, t) = append_nil fresh fresh' v in ((x, s), z, (u, t))

against_enforced :
    (r : Registries) (same : Package → Package → Bool) (label project : String)
    (verify_canonical : Bool) (now cooldown : ℕ) (event : Option PullRequest) (c : Change)
    (given : Option (List Package))
    → against r same label project verify_canonical now cooldown event c given ≡ []
    → let bypassed = hotfix_exception label event in
      (base : List Package) × (given ≡ some base)
      × All
          (λ p. IsPassed bypassed now cooldown (uploaded r verify_canonical p))
          (changed_packages same project base c.current_lock)
      × All
          (λ p. IsPassed bypassed now cooldown (committed r verify_canonical p.1))
          (changed_pins c.base_pins c.current_pins)
unfolding against
against_enforced r same label project verify_canonical now cooldown event c none h = cc h
against_enforced r same label project verify_canonical now cooldown event c (some base) h =
    let bypassed : Bool = hotfix_exception label event in
    let (packages, _, pins) = judged-IsClear bypassed _ _ _ h in
    (
      base,
      refl,
      check_packages_passed r verify_canonical bypassed now cooldown _ packages,
      check_pins_passed r verify_canonical bypassed now cooldown _ pins,
    )

-- A change without error has a base to compare with; each package that is new or differs from the
-- base's, and each pin that does, passed its check, and was published at least the cooldown ago, or
-- the pull request is a hotfix.
pub validate_cooldown_enforced :
    (r : Registries) (same : Package → Package → Bool) (label project : String)
    (verify_canonical : Bool) (now cooldown : ℕ) (event : Option PullRequest) (c : Change)
    → validate_cooldown r same label project verify_canonical now cooldown event c ≡ []
    → let bypassed = hotfix_exception label event in
      (base : List Package) × (c.base_lock ≡ some base)
      × All
          (λ p. IsPassed bypassed now cooldown (uploaded r verify_canonical p))
          (changed_packages same project base c.current_lock)
      × All
          (λ p. IsPassed bypassed now cooldown (committed r verify_canonical p.1))
          (changed_pins c.base_pins c.current_pins)
unfolding validate_cooldown
validate_cooldown_enforced r same label project verify_canonical now cooldown event c h =
    against_enforced r same label project verify_canonical now cooldown event c c.base_lock h
