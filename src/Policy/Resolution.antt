-- ===== src/Policy/Resolution.antt =====
-- The layers of a policy, and the registry as a map.
use text.Mathlib.TextPositions.{eq_refl}
use dewey.Prelude.{
  ℕ, String, Bool, false, Option, none, some, ◌≡◌, ok, err, get_or, arith, str_eq, eq_iff,
  if◌then◌else◌, map_option,
}
use dewey.Prelude.Dict.{lookup, lookup-assign}
use dewey.Policy.{TaskPolicy, Overrides, default_policy}
use dewey.Policy.Registry.{
  Registry, Project, already_registered, get, register, task, resolve_policy,
}

-- The value of one field through the layers: the project's, else the declared one, else Dewey's.
abbrev layered {ℓ} : {A : Type ℓ} → Option A → Option A → A → A
layered project declared baseline = get_or project (get_or declared baseline)

abbrev from_project {ℓ} : {A : Type ℓ} → (Overrides → Option A) → Option Overrides → Option A
from_project field none = none
from_project field (some o) = field o

-- Each policy field resolves to the project's value, else to the declared one, else to the
-- baseline's; the handler is the declared one, and no project entry changes it.
pub resolve_policy_layers :
    (registry : Registry) (project : Project) (t : String)
    → let p = resolve_policy registry project t in
      let declared = get registry t in
      let entry = lookup t project in
      let base = default_policy t in
      (p.queue
        ≡ layered
            (from_project (λ o. o.queue) entry)
            (map_option (λ (d : TaskPolicy). d.queue) declared)
            base.queue)
      × (p.priority
          ≡ layered
              (from_project (λ o. o.priority) entry)
              (map_option (λ (d : TaskPolicy). d.priority) declared)
              base.priority)
      × (p.max_attempts
          ≡ layered
              (from_project (λ o. o.max_attempts) entry)
              (map_option (λ (d : TaskPolicy). d.max_attempts) declared)
              base.max_attempts)
      × (p.backoff
          ≡ layered
              (from_project (λ o. o.backoff) entry)
              (map_option (λ (d : TaskPolicy). d.backoff) declared)
              base.backoff)
      × (p.retry_on
          ≡ layered
              (from_project (λ o. o.retry_on) entry)
              (map_option (λ (d : TaskPolicy). d.retry_on) declared)
              base.retry_on)
      × (p.fail_fast_on
          ≡ layered
              (from_project (λ o. o.fail_fast_on) entry)
              (map_option (λ (d : TaskPolicy). d.fail_fast_on) declared)
              base.fail_fast_on)
      × (p.handler ≡ get_or (map_option (λ (d : TaskPolicy). d.handler) declared) none)
unfolding resolve_policy
resolve_policy_layers registry project t = ground arith

module _ (same : TaskPolicy → TaskPolicy → Bool) where
  -- Without `replace_existing` a registered task type keeps its policy: a declaration that is equal
  -- to it changes nothing, and another one is refused.
  pub register_again :
      (policy existing : TaskPolicy) (registry : Registry)
      → get registry policy.task_type ≡ some existing
      → register same false policy registry ≡ (
          if same existing policy
          then ok (existing, registry)
          else err (already_registered policy.task_type))
  unfolding register
  register_again policy existing registry h = ground (arith, h)

  -- After a registration that is not refused, the policy that it returned is found under the task
  -- type, and under every other task type what was found before.
  get-register :
      (replace_existing : Bool) (policy p : TaskPolicy) (registry registry' : Registry) (t : String)
      → register same replace_existing policy registry ≡ ok (p, registry')
      → get registry' t ≡ (if str_eq policy.task_type t then some p else get registry t)
  unfolding register get
  get-register replace_existing policy p registry registry' t h =
      ground (arith, lookup-assign policy.task_type t policy registry, eq_iff policy.task_type t)

-- A declared handler is the one that resolves, whatever the project's layer holds.
task_resolves :
    (same : TaskPolicy → TaskPolicy → Bool) (t : String) (overrides : Overrides) (fn : ℕ)
    (registry registry' : Registry) (p : TaskPolicy) (project : Project)
    → get registry t ≡ none
    → task same t overrides fn registry ≡ ok (p, registry')
    → (resolve_policy registry' project t).handler ≡ some fn
unfolding task resolve_policy get
task_resolves same t overrides fn registry registry' p project h e =
    ground (arith, lookup-assign t t p registry, eq_refl t)
