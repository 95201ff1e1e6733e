-- ===== src/Django/Command/Starts.antt =====
-- A configuration that the system check passes.
use dewey.Prelude.{
  ℕ, ◌<◌, ◌⊎◌, ◌∙◌, ap, arith, pos, negsuc, eq_iff, String, Bool, true, false, Option, none, some,
  List, [], ◌∷◌, ◌++◌, ◌≡◌, refl, All, Result, ok, err, ◌>>=◌, Bool-cases, inl, inr, if◌then◌else◌,
}
use dewey.Prelude.Dict.{lookup}
use dewey.Django.Settings.{
  Setting, none_value, int_value, float_value, bool_value, text_value, list_value, callable_value,
  other_value, Settings, Configured, Site, SettingsError, Finding, w001, w002, e005, setting,
  is_true, is_postgresql, alias_findings, dispatch_findings, is_interval, interval_findings,
  findings_of, get_settings, get_dispatch_fn, check_dewey_configuration,
}
use dewey.Django.Command.{
  Options, Queues, configured_queues, named_queues, Started, StartError, queues_not_iterable,
  batch_size_no_number, batch_size_below_one, listed, served, queues_of, interval_of, batch_of,
  is_below_one, constructed, configured_as, dispatcher_of, handle,
}

-- An error, or the warning that no transport is set.
abbrev pub is_blocking : Finding → Bool
is_blocking w001 = false
is_blocking w002 = false
is_blocking f = true

All-append {ℓ κ} :
    {A : Type ℓ} (P : A → Type κ) (xs ys : List A) → All P (xs ++ ys) → All P xs × All P ys
All-append P [] ys h = (tt, h)
All-append P (x ∷ xs) ys (p, h) = let (a, b) = All-append P xs ys h in ((p, a), b)

module _ (site : Site) where
  abbrev AllPass : List Finding → Type 0
  AllPass = All (λ f. is_blocking f ≡ false)

  -- No alias, which leaves it to the routers, or that of a PostgreSQL database.
  abbrev is_usable : Setting → Bool
  is_usable none_value = true
  is_usable (text_value alias) = is_postgresql (lookup alias site.databases)
  is_usable v = false

  abbrev is_sweepable : Setting → Bool
  is_sweepable none_value = true
  is_sweepable v = is_interval site v

  found_usable :
      (role alias : String) (engine : Option String)
      → lookup alias site.databases ≡ engine
      → AllPass (alias_findings site role (text_value alias))
      → is_postgresql engine ≡ true
  unfolding alias_findings
  found_usable role alias none e h = cc ((rw (alias_findings, e) at h).0)
  found_usable role alias (some engine) e h = elim (Bool-cases (is_postgresql (some engine))) [
    | inl y ↦ y
    | inr n ↦ cc ((rw (alias_findings, e, n) at h).0)
  ]

  alias_usable :
      (role : String) (v : Setting) → AllPass (alias_findings site role v) → is_usable v ≡ true
  unfolding alias_findings
  alias_usable role none_value h = refl
  alias_usable role (text_value alias) h = found_usable role alias _ refl h
  alias_usable role (int_value z) h = cc h.0
  alias_usable role (float_value x) h = cc h.0
  alias_usable role (bool_value b) h = cc h.0
  alias_usable role (list_value l) h = cc h.0
  alias_usable role (callable_value f) h = cc h.0
  alias_usable role (other_value n) h = cc h.0

  dispatch_passed :
      (path : Setting) (dispatch : Result SettingsError ℕ)
      → AllPass (dispatch_findings site path dispatch)
      → (f : ℕ) × (dispatch ≡ ok f)
  dispatch_passed path (ok f) h = (f, refl)
  dispatch_passed path (err e) h = elim (Bool-cases (is_true site.is_zero path)) [
    | inl y ↦ cc ((rw y at h).0)
    | inr n ↦ cc ((rw n at h).0)
  ]

  judged_interval : (b : Bool) → AllPass (if b then [] else e005 ∷ []) → b ≡ true
  judged_interval true h = refl
  judged_interval false h = cc h.0

  interval_sweepable : (v : Setting) → AllPass (interval_findings site v) → is_sweepable v ≡ true
  interval_sweepable none_value h = refl
  interval_sweepable (int_value z) h = judged_interval _ h
  interval_sweepable (float_value x) h = judged_interval _ h
  interval_sweepable (bool_value b) h = judged_interval _ h
  interval_sweepable (text_value s) h = judged_interval _ h
  interval_sweepable (list_value l) h = judged_interval _ h
  interval_sweepable (callable_value f) h = judged_interval _ h
  interval_sweepable (other_value n) h = judged_interval _ h

  findings_passed :
      (c : Settings) (dispatch : Result SettingsError ℕ)
      → AllPass (findings_of site c dispatch)
      → (f : ℕ) × (dispatch ≡ ok f)
        × (is_usable (setting "DATABASE" c) ≡ true)
        × (is_sweepable (setting "SWEEP_INTERVAL_SECONDS" c) ≡ true)
  unfolding findings_of
  findings_passed c dispatch h =
      let P : Finding → Type 0 = λ f. is_blocking f ≡ false in
      let (_, h₁) =
        All-append P (alias_findings site "producer" (text_value site.producer_alias)) _ h in
      let (database, h₂) =
        All-append P (alias_findings site "dispatcher" (setting "DATABASE" c)) _ h₁ in
      let (_, h₃) =
        All-append P (alias_findings site "worker" (setting "WORKER_DATABASE" c)) _ h₂ in
      let (transport, h₄) =
        All-append P (dispatch_findings site (setting "DISPATCH" c) dispatch) _ h₃ in
      let (interval, _) =
        All-append P (interval_findings site (setting "SWEEP_INTERVAL_SECONDS" c)) _ h₄ in
      let (f, e) = dispatch_passed (setting "DISPATCH" c) dispatch transport in
      (
        f,
        e,
        alias_usable "dispatcher" (setting "DATABASE" c) database,
        interval_sweepable (setting "SWEEP_INTERVAL_SECONDS" c) interval,
      )

  settings_passed :
      (configured : Configured) (result : Result SettingsError Settings)
      → get_settings configured ≡ result
      → AllPass (check_dewey_configuration site configured)
      → (c : Settings) × (result ≡ ok c)
        × AllPass (findings_of site c (get_dispatch_fn site configured))
  unfolding check_dewey_configuration
  settings_passed configured (err e) r h = cc ((rw (check_dewey_configuration, r) at h).0)
  settings_passed configured (ok c) r h = (c, refl, rw (check_dewey_configuration, r) at h)

  -- No alias, which leaves it to the routers, or that of a PostgreSQL database.
  abbrev pub UsesPostgresql : Setting → Type 0
  UsesPostgresql none_value = Unit
  UsesPostgresql (text_value alias) =
      (engine : String) × (lookup alias site.databases ≡ some engine)
      × ((engine ≡ "django.db.backends.postgresql")
          ⊎ (engine ≡ "django.db.backends.postgresql_psycopg2"))
  UsesPostgresql v = ⊥

  -- None, or a positive number.
  abbrev pub IsInterval : Setting → Type 0
  IsInterval none_value = Unit
  IsInterval (int_value (pos n)) = 0 < n
  IsInterval (float_value x) = site.is_positive x ≡ true
  IsInterval (bool_value b) = b ≡ true
  IsInterval v = ⊥

  engine_postgresql :
      (o : Option String)
      → is_postgresql o ≡ true
      → (engine : String) × (o ≡ some engine)
        × ((engine ≡ "django.db.backends.postgresql")
            ⊎ (engine ≡ "django.db.backends.postgresql_psycopg2"))
  engine_postgresql none h = cc h
  engine_postgresql (some engine) h = (
    engine,
    refl,
    ground (
      arith,
      h,
      eq_iff engine "django.db.backends.postgresql",
      eq_iff engine "django.db.backends.postgresql_psycopg2",
    ),
  )

  usable-UsesPostgresql : (v : Setting) → is_usable v ≡ true → UsesPostgresql v
  usable-UsesPostgresql none_value h = tt
  usable-UsesPostgresql (text_value alias) h = engine_postgresql (lookup alias site.databases) h
  usable-UsesPostgresql (list_value l) h = cc h
  usable-UsesPostgresql (int_value z) h = cc h
  usable-UsesPostgresql (float_value x) h = cc h
  usable-UsesPostgresql (bool_value b) h = cc h
  usable-UsesPostgresql (callable_value f) h = cc h
  usable-UsesPostgresql (other_value n) h = cc h

  sweepable-IsInterval : (v : Setting) → is_sweepable v ≡ true → IsInterval v
  sweepable-IsInterval none_value h = tt
  sweepable-IsInterval (text_value s) h = cc h
  sweepable-IsInterval (list_value l) h = cc h
  sweepable-IsInterval (int_value (pos n)) h = ground (arith, h)
  sweepable-IsInterval (int_value (negsuc n)) h = cc h
  sweepable-IsInterval (float_value x) h = h
  sweepable-IsInterval (bool_value b) h = h
  sweepable-IsInterval (callable_value f) h = cc h
  sweepable-IsInterval (other_value n) h = cc h

  -- An interval that passes is not taken for none.
  interval_kept :
      (v : Setting)
      → ((x : ℕ) → site.is_positive x ≡ true → site.is_zero x ≡ false)
      → IsInterval v
      → interval_of site none v ≡ v
  interval_kept none_value law h = refl
  interval_kept (text_value s) law h = refl
  interval_kept (list_value l) law h = refl
  interval_kept (int_value (pos n)) law h = ground (arith, h)
  interval_kept (int_value (negsuc n)) law h = refl
  interval_kept (float_value x) law h = rw (law x h) refl
  interval_kept (bool_value b) law h = rw h refl
  interval_kept (callable_value f) law h = refl
  interval_kept (other_value n) law h = refl

  listed_cases :
      (v : Setting)
      → (listed v ≡ err queues_not_iterable) ⊎ ((qs : Option (List (List ℕ))) × (listed v ≡ ok qs))
  listed_cases (text_value s) = inr (_, refl)
  listed_cases (list_value l) = inr (_, refl)
  listed_cases none_value = inl refl
  listed_cases (int_value z) = inl refl
  listed_cases (float_value x) = inl refl
  listed_cases (bool_value b) = inl refl
  listed_cases (callable_value f) = inl refl
  listed_cases (other_value n) = inl refl

  served_cases :
      (q : Queues)
      → (served site q ≡ err queues_not_iterable)
        ⊎ ((qs : Option (List (List ℕ))) × (served site q ≡ ok qs))
  served_cases (named_queues []) = inr (_, refl)
  served_cases (named_queues (q ∷ qs)) = inr (_, refl)
  served_cases (configured_queues v) = elim (Bool-cases (is_true site.is_zero v)) [
    | inl y ↦ rw y (listed_cases v)
    | inr n ↦ rw n (inr (_, refl))
  ]

  constructed_cases :
      (o : Option Bool) (s : Started)
      → (constructed site o s ≡ err batch_size_no_number)
        ⊎ ((constructed site o s ≡ err batch_size_below_one) ⊎ (constructed site o s ≡ ok s))
  constructed_cases none s = inl refl
  constructed_cases (some true) s = inr (inl refl)
  constructed_cases (some false) s = inr (inr refl)

  -- How the command ends behind its settings and its transport.
  abbrev pub Ends : Settings → ℕ → Result StartError Started → Type 0
  Ends c f result =
      (result ≡ err queues_not_iterable)
      ⊎ ((result ≡ err batch_size_no_number)
          ⊎ ((result ≡ err batch_size_below_one)
              ⊎ ((s : Started) × (result ≡ ok s)
                  × (s.dispatch_fn ≡ f)
                  × (s.using ≡ setting "DATABASE" c)
                  × (s.sweep_interval_seconds ≡ setting "SWEEP_INTERVAL_SECONDS" c))))

  constructed-Ends :
      (o : Options) (c : Settings) (f : ℕ) (queues : Option (List (List ℕ)))
      → interval_of site o.sweep_interval_seconds (setting "SWEEP_INTERVAL_SECONDS" c)
        ≡ setting "SWEEP_INTERVAL_SECONDS" c
      → Ends c f (
          constructed site
            (is_below_one site (batch_of o.batch_size (setting "BATCH_SIZE" c)))
            (dispatcher_of site o c f queues))
  constructed-Ends o c f queues k = elim (constructed_cases _ (dispatcher_of site o c f queues)) [
    | inl e ↦ inr (inl e)
    | inr (inl e) ↦ inr (inr (inl e))
    | inr (inr e) ↦ inr (inr (inr (dispatcher_of site o c f queues, e, refl, refl, k)))
  ]

  handle-Ends :
      (o : Options) (settings : Result SettingsError Settings) (dispatch : Result SettingsError ℕ)
      (c : Settings) (f : ℕ)
      → settings ≡ ok c
      → dispatch ≡ ok f
      → interval_of site o.sweep_interval_seconds (setting "SWEEP_INTERVAL_SECONDS" c)
        ≡ setting "SWEEP_INTERVAL_SECONDS" c
      → Ends c f (
          configured_as site settings >>= λ config. configured_as site dispatch >>= λ dispatch_fn.
          served site (queues_of o.queues (setting "QUEUES" config)) >>= λ queues.
          constructed site
            (is_below_one site (batch_of o.batch_size (setting "BATCH_SIZE" config)))
            (dispatcher_of site o config dispatch_fn queues))
  handle-Ends o settings dispatch c f e d k =
      rw (e, d)
        (elim (served_cases (queues_of o.queues (setting "QUEUES" c))) [
          | inl q ↦ rw q (inl refl)
          | inr (queues, q) ↦ rw q (constructed-Ends o c f queues k)
        ])

  -- Where the system check finds no error, and not that no transport is set: the settings are
  -- accepted, the transport is imported, the dispatcher's alias is left to the routers or is that of a
  -- PostgreSQL database, and the interval of the sweep is none or a positive number; and the command,
  -- where it is given no interval, ends in a dispatcher with this transport, alias and interval, or in
  -- the error that the queues are no sequence or that the batch size is no number or below one, which
  -- the system check does not look at. A float above 0 is not 0.
  pub check_starts :
      (configured : Configured) (o : Options)
      → All (λ f. is_blocking f ≡ false) (check_dewey_configuration site configured)
      → ((x : ℕ) → site.is_positive x ≡ true → site.is_zero x ≡ false)
      → o.sweep_interval_seconds ≡ none
      → (c : Settings) × (f : ℕ) × (get_settings configured ≡ ok c)
        × (get_dispatch_fn site configured ≡ ok f)
        × UsesPostgresql (setting "DATABASE" c)
        × IsInterval (setting "SWEEP_INTERVAL_SECONDS" c)
        × Ends c f (handle site configured o)
  unfolding handle
  check_starts configured o h law given =
      let (c, e, passed) = settings_passed configured _ refl h in
      let (f, d, usable, sweepable) = findings_passed c (get_dispatch_fn site configured) passed in
      let interval = sweepable-IsInterval (setting "SWEEP_INTERVAL_SECONDS" c) sweepable in
      let k : interval_of site o.sweep_interval_seconds (setting "SWEEP_INTERVAL_SECONDS" c)
          ≡ setting "SWEEP_INTERVAL_SECONDS" c =
        ap (λ i. interval_of site i (setting "SWEEP_INTERVAL_SECONDS" c)) given
        ∙ interval_kept (setting "SWEEP_INTERVAL_SECONDS" c) law interval in
      (
        c,
        f,
        e,
        d,
        usable-UsesPostgresql (setting "DATABASE" c) usable,
        interval,
        handle-Ends o _ _ c f e d k,
      )
