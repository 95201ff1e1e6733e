-- ===== src/Admission/Workflow/Pinned.antt =====
-- What an admitted workflow's references are.
use dewey.Prelude.{
  ℕ, String, Bool, true, false, Option, none, some, List, [], ◌∷◌, ◌++◌, ◌≡◌, inl, inr, refl, ap,
  subst, ◌∙◌, arith, All, Bool-cases, Option-cases, is_some,
}
use dewey.Admission.Patterns.{codes, behind, is_full_commit, action_pin}
use dewey.Admission.Workflow.{
  Entry, Verdict, non_canonical, disagrees, local_action, mutable_ref, pinned, same_codes,
  rsplit_at, pin_of, judged, parse_entries,
}

same_codes-eq : (cs ds : List ℕ) → same_codes cs ds ≡ true → cs ≡ ds
unfolding same_codes
same_codes-eq [] [] h = refl
same_codes-eq [] (d ∷ ds) h = cc h
same_codes-eq (c ∷ cs) [] h = cc h
same_codes-eq (c ∷ cs) (d ∷ ds) h = ground (arith, same_codes-eq cs ds)

rsplit_at-eq-some :
    (cs left right : List ℕ) → rsplit_at cs ≡ some (left, right) → cs ≡ left ++ b'@' ∷ right
unfolding rsplit_at
rsplit_at-eq-some [] left right h = cc h
rsplit_at-eq-some (c ∷ cs) left right h = elim (Option-cases (rsplit_at cs)) [
  | inl e ↦ ground (arith, e, h)
  | inr ((l, r), e) ↦ ground (arith, e, h, rsplit_at-eq-some cs l r)
]

-- A reference within the repository, or an action at a full commit.
pub data IsPinned (reference : List ℕ) : Type 0 where
  within : is_some (behind (codes "./") reference) ≡ true → IsPinned reference
  at_commit :
      (action commit : List ℕ)
      → reference ≡ action ++ b'@' ∷ commit
      → is_full_commit commit ≡ true
      → IsPinned reference

-- The source line and the parsed YAML agree on the reference, and it is pinned.
abbrev pub IsCanonical : (ℕ → List ℕ) → Entry → Type 0
IsCanonical lines (number, semantic) =
    (s : String) × (semantic ≡ some s)
    × (action_pin (lines number) ≡ some (codes s))
    × IsPinned (codes s)

abbrev is_accepted : Verdict → Bool
is_accepted local_action = true
is_accepted (pinned action commit) = true
is_accepted v = false

pin_of-IsPinned :
    (reference : List ℕ) (split : Option (List ℕ × List ℕ))
    → rsplit_at reference ≡ split
    → is_accepted (pin_of split) ≡ true
    → IsPinned reference
pin_of-IsPinned reference none e h = cc h
pin_of-IsPinned reference (some (a, c)) e h = elim (Bool-cases (is_full_commit c)) [
  | inl y ↦ at_commit a c (rsplit_at-eq-some reference a c e) y
  | inr n ↦ cc (rw n at h)
]

judged_accepted :
    (lines : ℕ → List ℕ) (number : ℕ) (pin : Option (List ℕ)) (semantic : Option String)
    → action_pin (lines number) ≡ pin
    → is_accepted (judged pin semantic) ≡ true
    → IsCanonical lines (number, semantic)
judged_accepted lines number none none e h = cc h
judged_accepted lines number none (some s) e h = cc h
judged_accepted lines number (some reference) none e h = cc h
judged_accepted lines number (some reference) (some s) e h =
    elim (Bool-cases (same_codes reference (codes s))) [
      | inr n ↦ cc (rw n at h)
      | inl y ↦
          let same : reference ≡ codes s = same_codes-eq reference (codes s) y in
          (
            s,
            refl,
            e ∙ ap some same,
            subst IsPinned same (elim (Bool-cases (is_some (behind (codes "./") reference))) [
              | inl local ↦ within local
              | inr remote ↦
                  pin_of-IsPinned reference (rsplit_at reference) refl (rw remote at (rw y at h))
            ]),
          )
    ]

-- One round of the loop that adds no error.
accepted_round :
    (lines : ℕ → List ℕ) (seen : List (List ℕ)) (number : ℕ) (semantic : Option String)
    (entries : List Entry) (v : Verdict)
    → judged (action_pin (lines number)) semantic ≡ v
    → (parse_entries lines [] seen ((number, semantic) ∷ entries)).errors ≡ []
    → (is_accepted v ≡ true)
      × ((seen' : List (List ℕ)) × ((parse_entries lines [] seen' entries).errors ≡ []))
unfolding parse_entries
accepted_round lines seen number semantic entries non_canonical j h =
    cc (rw (j, parse_entries) at h)
accepted_round lines seen number semantic entries disagrees j h = cc (rw (j, parse_entries) at h)
accepted_round lines seen number semantic entries mutable_ref j h = cc (rw (j, parse_entries) at h)
accepted_round lines seen number semantic entries local_action j h =
    (refl, (seen, rw (j, parse_entries) at h))
accepted_round lines seen number semantic entries (pinned action commit) j h =
    (refl, (action ∷ seen, rw (j, parse_entries) at h))

-- Where a workflow has no error, the source line and the parsed YAML agree on each `uses` entry, and
-- it names something within the repository or an action at a full commit.
pub parse_entries_pinned :
    (lines : ℕ → List ℕ) (seen : List (List ℕ)) (entries : List Entry)
    → (parse_entries lines [] seen entries).errors ≡ []
    → All (IsCanonical lines) entries
parse_entries_pinned lines seen [] h = tt
parse_entries_pinned lines seen ((number, semantic) ∷ entries) h =
    let (accepted, (seen', rest)) = accepted_round lines seen number semantic entries _ refl h in
    (
      judged_accepted lines number (action_pin (lines number)) semantic refl accepted,
      parse_entries_pinned lines seen' entries rest,
    )
