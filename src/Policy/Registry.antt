-- ===== src/Policy/Registry.antt =====
-- `PolicyRegistry`, `task` and `resolve_policy` of src/dewey/policy.py. The two module-level
-- dictionaries are arguments. `same` is the equality that Python generates for the dataclass.
use dewey.Prelude.{
  ℕ, String, Bool, false, Option, none, some, List, Result, ok, err, get_or, if◌then◌else◌,
}
use dewey.Prelude.Dict.{lookup, assign, without}
use dewey.Policy.{TaskPolicy, Overrides, default_policy, replace}

abbrev pub Registry : Type 0
Registry = List (String × TaskPolicy)

pub data DuplicateTaskTypeError : Type 0 where
  already_registered : String → DuplicateTaskTypeError

unfoldable pub get : Registry → String → Option TaskPolicy
get registry task_type = lookup task_type registry

abbrev pub Registered : Type 0
Registered = Result DuplicateTaskTypeError (TaskPolicy × Registry)

register_existing :
    (TaskPolicy → TaskPolicy → Bool) → Bool → TaskPolicy → Registry → Option TaskPolicy → Registered
register_existing same replace_existing policy registry none =
    ok (policy, assign policy.task_type policy registry)
register_existing same replace_existing policy registry (some existing) =
    if replace_existing
    then ok (policy, assign policy.task_type policy registry)
    else if same existing policy
    then ok (existing, registry)
    else err (already_registered policy.task_type)

unfoldable pub register :
    (TaskPolicy → TaskPolicy → Bool) → Bool → TaskPolicy → Registry → Registered
unfolding register_existing get
register same replace_existing policy registry =
    register_existing same replace_existing policy registry (get registry policy.task_type)

unfoldable pub unregister : String → Registry → Registry
unregister task_type registry = without task_type registry

-- The decorator `@task(task_type, **overrides)` applied to the handler `fn`.
unfoldable pub task :
    (TaskPolicy → TaskPolicy → Bool) → String → Overrides → ℕ → Registry → Registered
unfolding register replace
task same task_type overrides fn registry =
    register same false
      (replace (record (default_policy task_type) { handler = some fn }) overrides) registry

abbrev pub Project : Type 0
Project = List (String × Overrides)

abbrev overridden : TaskPolicy → Option Overrides → TaskPolicy
overridden policy none = policy
overridden policy (some overrides) = replace policy overrides

unfoldable pub resolve_policy : Registry → Project → String → TaskPolicy
unfolding get replace
resolve_policy registry project task_type =
    overridden (get_or (get registry task_type) (default_policy task_type))
      (lookup task_type project)
