-- ===== src/Admission/Workflow.antt =====
-- The pins of a workflow's actions: `yaml_uses_nodes` and `parse_actions` of
-- scripts/dependency_admission.py. A document is the graph of nodes that `yaml.compose` makes of it,
-- where an alias is an edge to a node that stands elsewhere; a node's identity is a number.
pub mod Walk
pub mod Pinned
use dewey.Prelude.{
  ℕ, zero, suc, String, Bool, true, false, not, ◌&&◌, Option, none, some, List, [], ◌∷◌, ◌++◌,
  contains, ◌==◌, map_option, is_some, str_eq, length, keep, map, Result, ok, err, if◌then◌else◌,
}
use dewey.Admission.Patterns.{codes, behind, is_full_commit, action_pin}

-- The line of its start mark, and for a scalar its tag and its value.
pub data Node : Type 0 where
  scalar : ℕ → String → String → Node
  mapping : ℕ → List (ℕ × ℕ) → Node
  sequence : ℕ → List ℕ → Node

abbrev pub line_of : Node → ℕ
line_of (scalar line tag value) = line
line_of (mapping line pairs) = line
line_of (sequence line items) = line

-- A `uses` entry: its line, and its value where that is a string.
abbrev pub Entry : Type 0
Entry = ℕ × Option String

-- The entries, and the lines where a node stands within itself.
abbrev pub Found : Type 0
Found = List Entry × List ℕ

abbrev pub nothing : Option Found
nothing = some ([], [])

-- `none` is out of fuel.
unfoldable pub and_then : Option Found → Option Found → Option Found
and_then none b = none
and_then (some f) none = none
and_then (some (entries, errors)) (some (entries', errors')) =
    some (entries ++ entries', errors ++ errors')

abbrev reference_of : Node → Option String
reference_of (scalar line tag value) =
    if str_eq tag "tag:yaml.org,2002:str" then some value else none
reference_of n = none

unfoldable pub uses_entry : Node → Node → Option Found
uses_entry (scalar line tag key) value =
    if str_eq key "uses" then some ((line, reference_of value) ∷ [], []) else nothing
uses_entry n value = nothing

module _ (node : ℕ → Node) where
  unfoldable pub walk_pairs : (ℕ → Option Found) → List (ℕ × ℕ) → Option Found
  unfolding and_then uses_entry
  walk_pairs visit [] = nothing
  walk_pairs visit ((key, value) ∷ pairs) =
      and_then (uses_entry (node key) (node value))
        (and_then (visit key) (and_then (visit value) (walk_pairs visit pairs)))

  unfoldable pub walk_items : (ℕ → Option Found) → List ℕ → Option Found
  unfolding and_then
  walk_items visit [] = nothing
  walk_items visit (item ∷ items) = and_then (visit item) (walk_items visit items)

  abbrev pub walk_node : (ℕ → Option Found) → Node → Option Found
  walk_node visit (scalar line tag value) = nothing
  walk_node visit (mapping line pairs) = walk_pairs visit pairs
  walk_node visit (sequence line items) = walk_items visit items

  -- `active` is the set of nodes on the way to this one.
  unfoldable pub walk : ℕ → List ℕ → ℕ → Option Found
  unfolding walk_pairs walk_items
  walk zero active i = none
  walk (suc fuel) active i =
      let below = walk_node (walk fuel (i ∷ active)) (node i) in
      if contains i active then some ([], line_of (node i) ∷ []) else below

-- Equality of texts.
unfoldable pub same_codes : List ℕ → List ℕ → Bool
same_codes [] [] = true
same_codes (c ∷ cs) (d ∷ ds) = c == d && same_codes cs ds
same_codes cs ds = false

abbrev behind_at : ℕ → List ℕ → Option (List ℕ × List ℕ) → Option (List ℕ × List ℕ)
behind_at c cs (some (left, right)) = some (c ∷ left, right)
behind_at c cs none = if c == b'@' then some ([], cs) else none

-- `reference.rsplit("@", 1)`: `none` where there is no "@".
unfoldable pub rsplit_at : List ℕ → Option (List ℕ × List ℕ)
rsplit_at [] = none
rsplit_at (c ∷ cs) = behind_at c cs (rsplit_at cs)

-- What the loop of `parse_actions` makes of an entry.
pub data Verdict : Type 0 where
  non_canonical disagrees local_action mutable_ref : Verdict
  pinned : List ℕ → List ℕ → Verdict

abbrev pub pin_of : Option (List ℕ × List ℕ) → Verdict
pin_of none = mutable_ref
pin_of (some (action, commit)) = if is_full_commit commit then pinned action commit else mutable_ref

abbrev pub judged : Option (List ℕ) → Option String → Verdict
judged (some reference) (some semantic) =
    if same_codes reference (codes semantic)
    then (if is_some (behind (codes "./") reference)
        then local_action
        else pin_of (rsplit_at reference))
    else disagrees
judged _ _ = non_canonical

pub data WorkflowError : Type 0 where
  invalid_yaml not_a_mapping recursive_alias : WorkflowError
  entry_error : Verdict → WorkflowError

-- A pin: the action, its occurrence in the workflow, and the commit.
pub record Pin : Type 0 where
  pub action : List ℕ
  pub occurrence : ℕ
  pub commit : List ℕ

pub record Parsed : Type 0 where
  pub actions : List Pin
  pub errors : List (ℕ × WorkflowError)

abbrev pub failed_at : ℕ → Verdict → Parsed → Parsed
failed_at number v p = record p { errors = (number, entry_error v) ∷ p.errors }

-- `lines` gives the text of a line; `reported` are the lines reported for their syntax, and `seen` the
-- actions that came before, of which the occurrences are counted.
module _ (lines : ℕ → List ℕ) where
  unfoldable pub parse_entries : List ℕ → List (List ℕ) → List Entry → Parsed
  unfolding same_codes rsplit_at behind is_full_commit action_pin
  parse_entries reported seen [] = record { actions = []; errors = [] }
  parse_entries reported seen ((number, semantic) ∷ entries) =
      elim (judged (action_pin (lines number)) semantic) [
        | non_canonical ↦
            if contains number reported
            then parse_entries reported seen entries
            else failed_at number non_canonical (parse_entries (number ∷ reported) seen entries)
        | local_action ↦ parse_entries reported seen entries
        | disagrees ↦ failed_at number disagrees (parse_entries reported seen entries)
        | mutable_ref ↦ failed_at number mutable_ref (parse_entries reported seen entries)
        | pinned action commit ↦
            let occurrence = suc (length (keep (same_codes action) seen)) in
            let p = parse_entries reported (action ∷ seen) entries in
            record p {
              actions =
                  record { action = action; occurrence = occurrence; commit = commit } ∷ p.actions;
            }
      ]

-- A composed document: its number of nodes, its nodes and its root.
pub record Document : Type 0 where
  pub size : ℕ
  pub node : ℕ → Node
  pub root : ℕ

abbrev pub is_mapping : Node → Bool
is_mapping (mapping line pairs) = true
is_mapping n = false

abbrev refused : ℕ → WorkflowError → Option Parsed
refused number e = some (record { actions = []; errors = (number, e) ∷ [] })

abbrev pub with_found : (ℕ → List ℕ) → Option Found → Option Parsed
with_found lines none = none
with_found lines (some (entries, loops)) =
    let p = parse_entries lines [] [] entries in
    some (record p { errors = map (λ line. (line, recursive_alias)) loops ++ p.errors })

-- `parse_actions` of a text of which `yaml.compose` makes a document, or fails at a line.
unfoldable pub parse_actions : (ℕ → List ℕ) → Result ℕ Document → Option Parsed
unfolding walk parse_entries
parse_actions lines (err number) = refused number invalid_yaml
parse_actions lines (ok d) =
    if is_mapping (d.node d.root)
    then with_found lines (walk d.node (suc d.size) [] d.root)
    else refused 1 not_a_mapping
