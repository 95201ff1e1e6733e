-- ===== src/Examples/Settings.antt =====
-- A configuration of the Django package that is accepted.
use dewey.Prelude.{refl, ℕ, pos, true, false, not, none, some, [], ◌∷◌, ◌≡◌, ok, arith, ◌==◌}
use dewey.Django.Settings.{
  int_value, callable_value, Settings, dictionary, other_exception, Site, get_settings, setting,
  get_dispatch_fn, check_dewey_configuration,
}
use dewey.Django.Command.{Options, handle}
use dewey.Django.Command.Starts.{UsesPostgresql, IsInterval, Ends, check_starts}

abbrev chosen : Settings
chosen = ("DISPATCH", callable_value 7) ∷ ("BATCH_SIZE", int_value (pos 20)) ∷ []

abbrev site : Site
site = record {
  databases = ("default", "django.db.backends.postgresql") ∷ [];
  producer_alias = "default";
  import_string = λ path. other_exception;
  has_huey = false;
  is_zero = λ x. x == 0;
  is_positive = λ x. not (x == 0);
  is_below_one = λ x. x == 0;
}

abbrev options : Options
options = record {
  queues = some "mail, push";
  batch_size = none;
  idle_poll_seconds = none;
  sweep_interval_seconds = none;
  once = false;
}

positive_not_zero : (x : ℕ) → site.is_positive x ≡ true → site.is_zero x ≡ false
positive_not_zero x h = ground (arith, h)

check_starts_example :
    (c : Settings) × (f : ℕ) × (get_settings (dictionary chosen) ≡ ok c)
    × (get_dispatch_fn site (dictionary chosen) ≡ ok f)
    × UsesPostgresql site (setting "DATABASE" c)
    × IsInterval site (setting "SWEEP_INTERVAL_SECONDS" c)
    × Ends site c f (handle site (dictionary chosen) options)
unfolding check_dewey_configuration
check_starts_example = check_starts site (dictionary chosen) options tt positive_not_zero refl
