-- ===== src/Django/Settings/Merged.antt =====
-- What the merged settings hold.
use dewey.Prelude.{
  String, true, Option, none, some, List, [], ◌∷◌, ◌≡◌, ◌↔◌, refl, arith, All, ok, is_some, subst,
  eq_iff, Bool-cases, inl, inr,
}
use dewey.Prelude.Dict.{lookup, assign, lookup-assign}
use dewey.Django.Settings.{
  Setting, Settings, dictionary, defaults, unknown, merged, accepted, get_settings,
}

-- No key twice.
unfoldable IsDict : Settings → Type 0
IsDict [] = Unit
IsDict ((k, v) ∷ d) = (lookup k d ≡ none) × IsDict d

abbrev or_else : Option Setting → Option Setting → Option Setting
or_else (some a) b = some a
or_else none b = b

lookup-merged :
    (k : String) (d other : Settings)
    → IsDict other
    → lookup k (merged d other) ≡ or_else (lookup k other) (lookup k d)
unfolding merged lookup IsDict
lookup-merged k d [] h = refl
lookup-merged k d ((i, v) ∷ other) (absent, h) =
    ground (arith, lookup-merged k (assign i v d) other h, lookup-assign i k v d, eq_iff i k)

unknown-eq-nil :
    (d : Settings) → (unknown d ≡ []) ↔ All (λ e. is_some (lookup e.0 defaults) ≡ true) d
unfolding unknown
unknown-eq-nil [] = (λ h. tt, λ h. refl)
unknown-eq-nil ((k, v) ∷ d) = elim (Bool-cases (is_some (lookup k defaults))) [
  | inl y ↦ rw y (λ h. (refl, (unknown-eq-nil d).0 h), λ (a, h). (unknown-eq-nil d).1 h)
  | inr n ↦ rw n (λ h. cc h, λ (a, h). cc a)
]

accepted_iff :
    (d : Settings) (ks : List String) (c : Settings)
    → (accepted d ks ≡ ok c) ↔ ((ks ≡ []) × (merged defaults d ≡ c))
accepted_iff d [] c = (λ h. (refl, cc h), λ (a, h). cc h)
accepted_iff d (k ∷ ks) c = (λ h. cc h, λ (a, h). cc a)

-- Settings are accepted exactly where each of their keys is one of the defaults'.
get_settings_accepts :
    (d : Settings)
    → ((c : Settings) × (get_settings (dictionary d) ≡ ok c))
      ↔ All (λ e. is_some (lookup e.0 defaults) ≡ true) d
unfolding get_settings
get_settings_accepts d = (
  λ (c, e). (unknown-eq-nil d).0 ((accepted_iff d (unknown d) c).0 e).0,
  λ all. (
    merged defaults d,
    (accepted_iff d (unknown d) (merged defaults d)).1 ((unknown-eq-nil d).1 all, refl),
  ),
)

-- In settings that are accepted, each key has the value that was configured, or else the default.
get_settings_merged :
    (d c : Settings)
    → IsDict d
    → get_settings (dictionary d) ≡ ok c
    → (k : String) → lookup k c ≡ or_else (lookup k d) (lookup k defaults)
unfolding get_settings
get_settings_merged d c h e k =
    subst (λ m. lookup k m ≡ or_else (lookup k d) (lookup k defaults))
      ((accepted_iff d (unknown d) c).0 e).1 (lookup-merged k defaults d h)
