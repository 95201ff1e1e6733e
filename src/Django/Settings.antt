-- ===== src/Django/Settings.antt =====
-- src/dewey/django/conf.py and src/dewey/django/checks.py: the settings, the transport that they name,
-- and the system check of them.
pub mod Merged
use dewey.Prelude.{
  ℕ, String, ℤ, pos, negsuc, Bool, true, false, not, ◌&&◌, ◌||◌, Option, none, some, List, [], ◌∷◌,
  ◌++◌, Result, ok, err, ◌>>=◌, is_some, get_or, str_eq, ◌==◌, if◌then◌else◌,
}
use dewey.Prelude.Dict.{lookup, assign}

-- A Python value, as far as the settings are told apart; a float is its bit pattern, and what can be
-- called is a number; another value is one that is true.
pub data Setting : Type 0 where
  none_value : Setting
  int_value : ℤ → Setting
  float_value : ℕ → Setting
  bool_value : Bool → Setting
  text_value : String → Setting
  list_value : List String → Setting
  callable_value : ℕ → Setting
  other_value : ℕ → Setting

abbrev pub Settings : Type 0
Settings = List (String × Setting)

-- `getattr(settings, "DEWEY", None) or {}`
pub data Configured : Type 0 where
  nothing_configured : Configured
  dictionary : Settings → Configured
  another_type : Configured

-- How `import_string` ends: what it finds may be called or not, and an exception may be no ImportError.
pub data Imported : Type 0 where
  found : Bool → ℕ → Imported
  import_error other_exception : Imported

-- What is outside: the engines of settings.DATABASES, the alias of the router for producers,
-- `import_string`, whether the processor of the Huey adapter is registered, and of floats
-- `== 0`, `not … <= 0` and `< 1`.
pub record Site : Type 0 where
  pub databases : List (String × String)
  pub producer_alias : String
  pub import_string : Setting → Imported
  pub has_huey : Bool
  pub is_zero : ℕ → Bool
  pub is_positive : ℕ → Bool
  pub is_below_one : ℕ → Bool

pub data SettingsError : Type 0 where
  not_a_dict dispatch_not_set import_raised : SettingsError
  unknown_settings : List String → SettingsError
  import_failed not_callable : Setting → SettingsError

-- 5.0 and 60.0 as bit patterns.
abbrev pub defaults : Settings
defaults =
    ("DISPATCH", none_value)
    ∷ ("QUEUES", none_value)
    ∷ ("BATCH_SIZE", int_value (pos 100))
    ∷ ("IDLE_POLL_SECONDS", float_value 4_617_315_517_961_601_024)
    ∷ ("SWEEP_INTERVAL_SECONDS", float_value 4_633_641_066_610_819_072)
    ∷ ("DISPATCH_TIMEOUT_SECONDS", int_value (pos 300))
    ∷ ("STUCK_THRESHOLD_MINUTES", int_value (pos 10))
    ∷ ("SWEEP_LIMIT", int_value (pos 100))
    ∷ ("DATABASE", text_value "default")
    ∷ ("WORKER_DATABASE", none_value)
    ∷ []

-- `set(configured) - set(DEFAULTS)`
unfoldable pub unknown : Settings → List String
unfolding lookup
unknown [] = []
unknown ((k, v) ∷ d) =
    let rest = unknown d in if is_some (lookup k defaults) then rest else k ∷ rest

-- `{**d, **other}`
unfoldable pub merged : Settings → Settings → Settings
unfolding assign
merged d [] = d
merged d ((k, v) ∷ other) = merged (assign k v d) other

abbrev pub accepted : Settings → List String → Result SettingsError Settings
accepted d [] = ok (merged defaults d)
accepted d (k ∷ ks) = err (unknown_settings (k ∷ ks))

unfoldable pub get_settings : Configured → Result SettingsError Settings
unfolding unknown merged
get_settings nothing_configured = accepted [] (unknown [])
get_settings (dictionary d) = accepted d (unknown d)
get_settings another_type = err not_a_dict

-- `config[key]`, for a key of the defaults.
unfoldable pub setting : String → Settings → Setting
unfolding lookup
setting key config = get_or (lookup key config) none_value

abbrev pub is_true : (ℕ → Bool) → Setting → Bool
is_true zero_float none_value = false
is_true zero_float (int_value (pos n)) = not (n == 0)
is_true zero_float (float_value x) = not (zero_float x)
is_true zero_float (bool_value b) = b
is_true zero_float (text_value s) = not (str_eq s "")
is_true zero_float (list_value []) = false
is_true zero_float _ = true

module _ (site : Site) where
  abbrev imported : Setting → Imported → Result SettingsError ℕ
  imported path (found true f) = ok f
  imported path (found false f) = err (not_callable path)
  imported path import_error = err (import_failed path)
  imported path other_exception = err import_raised

  abbrev pub dispatch_at : Setting → Result SettingsError ℕ
  dispatch_at (callable_value f) = ok f
  dispatch_at path =
      if is_true site.is_zero path
      then imported path (site.import_string path)
      else err dispatch_not_set

  unfoldable pub get_dispatch_fn : Configured → Result SettingsError ℕ
  unfolding get_settings setting
  get_dispatch_fn configured =
      get_settings configured >>= λ config. dispatch_at (setting "DISPATCH" config)

abbrev is_postgresql_engine : String → Bool
is_postgresql_engine engine =
    str_eq engine "django.db.backends.postgresql"
    || str_eq engine "django.db.backends.postgresql_psycopg2"

abbrev pub is_postgresql : Option String → Bool
is_postgresql none = false
is_postgresql (some engine) = is_postgresql_engine engine

-- The findings, with their ids.
pub data Finding : Type 0 where
  e001 : SettingsError → Finding
  e002 e003 : String → Finding
  w003 w001 e005 w002 e006 : Finding
  e004 : SettingsError → Finding

module _ (site : Site) where
  unfoldable pub alias_findings : String → Setting → List Finding
  unfolding lookup
  alias_findings role none_value = []
  alias_findings role (text_value alias) = elim (lookup alias site.databases) [
    | none ↦ e002 role ∷ []
    | some engine ↦ if is_postgresql (some engine) then [] else e003 role ∷ []
  ]
  alias_findings role _ = e002 role ∷ []

  abbrev pub dispatch_findings : Setting → Result SettingsError ℕ → List Finding
  dispatch_findings path dispatch =
      if is_true site.is_zero path
      then elim dispatch [ ok f ↦ [] | err e ↦ e004 e ∷ [] ]
      else w003 ∷ []

  abbrev pub is_interval : Setting → Bool
  is_interval (int_value (pos n)) = not (n == 0)
  is_interval (float_value x) = site.is_positive x
  is_interval (bool_value b) = b
  is_interval _ = false

  abbrev pub interval_findings : Setting → List Finding
  interval_findings none_value = w001 ∷ []
  interval_findings v = if is_interval v then [] else e005 ∷ []

  abbrev alias_split : Setting → List Finding
  alias_split (text_value alias) =
      if str_eq site.producer_alias alias && not (str_eq alias "default") then w002 ∷ [] else []
  alias_split _ = []

  abbrev huey_findings : Setting → List Finding
  huey_findings (text_value path) =
      if str_eq path "dewey.contrib.django_huey.dispatch" && not site.has_huey
      then e006 ∷ []
      else []
  huey_findings _ = []

  unfoldable pub findings_of : Settings → Result SettingsError ℕ → List Finding
  unfolding alias_findings setting
  findings_of config dispatch =
      alias_findings "producer" (text_value site.producer_alias)
      ++ (alias_findings "dispatcher" (setting "DATABASE" config)
          ++ (alias_findings "worker" (setting "WORKER_DATABASE" config)
              ++ (dispatch_findings (setting "DISPATCH" config) dispatch
                  ++ (interval_findings (setting "SWEEP_INTERVAL_SECONDS" config)
                      ++ (alias_split (setting "DATABASE" config)
                          ++ huey_findings (setting "DISPATCH" config))))))

  unfoldable pub check_dewey_configuration : Configured → List Finding
  unfolding get_settings get_dispatch_fn findings_of
  check_dewey_configuration configured = elim (get_settings configured) [
    | err e ↦ e001 e ∷ []
    | ok config ↦ findings_of config (get_dispatch_fn site configured)
  ]
