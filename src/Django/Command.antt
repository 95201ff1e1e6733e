-- ===== src/Django/Command.antt =====
-- `Command.handle` of src/dewey/django/management/commands/dewey_dispatcher.py up to the dispatcher that
-- it runs, with the constructors of the backend and of `Dispatcher` as far as they
-- may raise.
pub mod Starts
use dewey.Prelude.{
  ℕ, String, ℤ, pos, negsuc, Bool, true, false, not, ◌&&◌, Option, none, some, List, [], ◌∷◌,
  Result, ok, err, ◌>>=◌, is_empty, keep, map, ltb, ◌==◌, if◌then◌else◌,
}
use dewey.Admission.Patterns.{codes, is_space, skip}
use dewey.Django.Settings.{
  Setting, none_value, int_value, float_value, bool_value, text_value, list_value, is_true,
  Settings, Configured, Site, SettingsError, get_settings, setting, get_dispatch_fn,
}

-- The parsed options; a float is its bit pattern.
pub record Options : Type 0 where
  pub queues : Option String
  pub batch_size : Option ℤ
  pub idle_poll_seconds : Option ℕ
  pub sweep_interval_seconds : Option ℕ
  pub once : Bool

-- `queues` as the backend is given it: as configured, or as the option lists them.
pub data Queues : Type 0 where
  configured_queues : Setting → Queues
  named_queues : List (List ℕ) → Queues

-- What the backend and the dispatcher are made with.
pub record Started : Type 0 where
  pub dispatch_fn : ℕ
  pub queues : Option (List (List ℕ))
  pub stuck_threshold_minutes : Setting
  pub dispatch_timeout_seconds : Setting
  pub sweep_limit : Setting
  pub using : Setting
  pub batch_size : Setting
  pub idle_poll_seconds : Setting
  pub sweep_interval_seconds : Setting
  pub once : Bool

pub data StartError : Type 0 where
  improperly_configured : SettingsError → StartError
  -- ValueError, and TypeError where the batch size is no number or the queues are no sequence.
  batch_size_below_one batch_size_no_number queues_not_iterable : StartError

abbrev in_first : ℕ → List (List ℕ) → List (List ℕ)
in_first c [] = (c ∷ []) ∷ []
in_first c (part ∷ parts) = (c ∷ part) ∷ parts

-- text.split(",")
unfoldable pub split_commas : List ℕ → List (List ℕ)
split_commas [] = [] ∷ []
split_commas (c ∷ cs) =
    let rest = split_commas cs in if c == b',' then [] ∷ rest else in_first c rest

unfoldable pub rstrip : List ℕ → List ℕ
rstrip [] = []
rstrip (c ∷ cs) = let rest = rstrip cs in if is_space c && is_empty rest then [] else c ∷ rest

abbrev strip : List ℕ → List ℕ
strip cs = rstrip (skip is_space cs)

unfoldable pub queue_names : String → List (List ℕ)
unfolding split_commas rstrip skip is_space
queue_names text = keep (λ name. not (is_empty name)) (map strip (split_commas (codes text)))

-- `if options.get("queues")`
abbrev pub queues_of : Option String → Setting → Queues
queues_of none configured = configured_queues configured
queues_of (some text) configured =
    if is_empty (codes text) then configured_queues configured else named_queues (queue_names text)

abbrev pub batch_of : Option ℤ → Setting → Setting
batch_of none configured = configured
batch_of (some (pos n)) configured = if n == 0 then configured else int_value (pos n)
batch_of (some (negsuc n)) configured = int_value (negsuc n)

abbrev equals_zero : (ℕ → Bool) → Setting → Bool
equals_zero is_zero (int_value (pos n)) = n == 0
equals_zero is_zero (float_value x) = is_zero x
equals_zero is_zero (bool_value b) = not b
equals_zero is_zero _ = false

-- `list(queues)`: the characters of a text, the elements of a list.
abbrev pub listed : Setting → Result StartError (Option (List (List ℕ)))
listed (text_value text) = ok (some (map (λ c. c ∷ []) (codes text)))
listed (list_value names) = ok (some (map codes names))
listed _ = err queues_not_iterable

module _ (site : Site) where
  -- `list(queues) if queues else None` in the constructor of the backend.
  abbrev pub served : Queues → Result StartError (Option (List (List ℕ)))
  served (configured_queues v) = if is_true site.is_zero v then listed v else ok none
  served (named_queues []) = ok none
  served (named_queues (q ∷ qs)) = ok (some (q ∷ qs))

  abbrev pub idle_of : Option ℕ → Setting → Setting
  idle_of none configured = configured
  idle_of (some x) configured = if site.is_zero x then configured else float_value x

  abbrev pub given_interval : Option ℕ → Setting → Setting
  given_interval none configured = configured
  given_interval (some x) configured = float_value x

  -- An interval of 0 is none.
  abbrev pub interval_of : Option ℕ → Setting → Setting
  interval_of option configured =
      if equals_zero site.is_zero (given_interval option configured)
      then none_value
      else given_interval option configured

  -- `batch_size < 1`; `none` is a TypeError.
  abbrev pub is_below_one : Setting → Option Bool
  is_below_one (int_value (pos n)) = some (ltb n 1)
  is_below_one (int_value (negsuc n)) = some true
  is_below_one (float_value x) = some (site.is_below_one x)
  is_below_one (bool_value b) = some (not b)
  is_below_one _ = none

  abbrev pub constructed : Option Bool → Started → Result StartError Started
  constructed none s = err batch_size_no_number
  constructed (some true) s = err batch_size_below_one
  constructed (some false) s = ok s

  abbrev pub configured_as : {A : Type 0} → Result SettingsError A → Result StartError A
  configured_as (ok a) = ok a
  configured_as (err e) = err (improperly_configured e)

  abbrev pub dispatcher_of : Options → Settings → ℕ → Option (List (List ℕ)) → Started
  dispatcher_of o config dispatch_fn queues = record {
    dispatch_fn = dispatch_fn;
    queues = queues;
    stuck_threshold_minutes = setting "STUCK_THRESHOLD_MINUTES" config;
    dispatch_timeout_seconds = setting "DISPATCH_TIMEOUT_SECONDS" config;
    sweep_limit = setting "SWEEP_LIMIT" config;
    using = setting "DATABASE" config;
    batch_size = batch_of o.batch_size (setting "BATCH_SIZE" config);
    idle_poll_seconds = idle_of o.idle_poll_seconds (setting "IDLE_POLL_SECONDS" config);
    sweep_interval_seconds =
        interval_of o.sweep_interval_seconds (setting "SWEEP_INTERVAL_SECONDS" config);
    once = o.once;
  }

  unfoldable pub handle : Configured → Options → Result StartError Started
  unfolding get_settings get_dispatch_fn setting
  handle configured o = configured_as (get_settings configured) >>= λ config.
      configured_as (get_dispatch_fn site configured) >>= λ dispatch_fn.
      served (queues_of o.queues (setting "QUEUES" config)) >>= λ queues.
      constructed (is_below_one (batch_of o.batch_size (setting "BATCH_SIZE" config)))
        (dispatcher_of o config dispatch_fn queues)
