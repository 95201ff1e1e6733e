-- ===== src/Admission/Gate/Exits.antt =====
-- The gate ends with an exit code.
use dewey.Prelude.{
  ℕ, suc, ◌<◌, String, Bool, true, false, Option, none, some, List, [], ◌∷◌, ◌≡◌, refl, All, Result,
  ok, err, Bool-cases, inl, inr, is_empty, if◌then◌else◌,
}
use dewey.Admission.{Package}
use dewey.Admission.Workflow.{Document, Found, Parsed, is_mapping, with_found, walk, parse_actions}
use dewey.Admission.Workflow.Walk.{IsDocument, walk_ends}
use dewey.Admission.Cooldown.{Registries}
use dewey.Admission.Gate.{Workflow, Actions, joined, actions_of, Inputs, gate_errors, main}

-- A document whose nodes are those that it counts.
abbrev pub IsComposed : Result ℕ Document → Type 0
IsComposed (err number) = Unit
IsComposed (ok d) = IsDocument d.size d.node × (d.root < d.size)

with_found-some :
    (lines : ℕ → List ℕ) (f : Found) (given : Option Found)
    → given ≡ some f
    → (p : Parsed) × (with_found lines given ≡ some p)
with_found-some lines f none e = cc e
with_found-some lines f (some (entries, loops)) e = (_, refl)

parse_actions_ends :
    (lines : ℕ → List ℕ) (document : Result ℕ Document)
    → IsComposed document
    → (p : Parsed) × (parse_actions lines document ≡ some p)
unfolding parse_actions
parse_actions_ends lines (err number) c = (_, refl)
parse_actions_ends lines (ok d) c = elim (Bool-cases (is_mapping (d.node d.root))) [
  | inr n ↦ rw n (_, refl)
  | inl y ↦
      let (f, e) = walk_ends d.size d.node d.root c.0 c.1 in
      rw y (with_found-some lines f (walk d.node (suc d.size) [] d.root) e)
]

joined-some :
    (path : String) (given : Option Parsed) (p : Parsed) (rest : Option Actions) (a : Actions)
    → given ≡ some p
    → rest ≡ some a
    → (a' : Actions) × (joined path given rest ≡ some a')
joined-some path none p rest a e f = cc e
joined-some path (some q) p none a e f = cc f
joined-some path (some q) p (some (pins, errors)) a e f = (_, refl)

actions_of_ends :
    (ws : List Workflow)
    → All (λ (w : Workflow). IsComposed w.document) ws
    → (a : Actions) × (actions_of ws ≡ some a)
unfolding actions_of
actions_of_ends [] c = (_, refl)
actions_of_ends (w ∷ ws) c =
    let (p, e) = parse_actions_ends w.lines w.document c.0 in
    let (a, f) = actions_of_ends ws c.1 in
    joined-some w.path (parse_actions w.lines w.document) p (actions_of ws) a e f

abbrev pub code : Bool → ℕ
code refused = if refused then 1 else 0

exits :
    (passed : Bool)
    → (refused : Bool) × (◌≡◌ {A = Option ℕ} (some (if passed then 0 else 1)) (some (code refused)))
exits true = (false, refl)
exits false = (true, refl)

-- The gate ends with the exit code 0 or 1, also where the aliases of a workflow make it cyclic, where
-- the nodes of each document are those that it counts.
pub main_exits :
    (r : Registries) (same : Package → Package → Bool) (i : Inputs)
    → All (λ (w : Workflow). IsComposed w.document) i.workflows
    → All (λ (w : Workflow). IsComposed w.document) i.base_workflows
    → (refused : Bool) × (main r same i ≡ some (code refused))
unfolding main
main_exits r same i c b =
    let (current, e) = actions_of_ends i.workflows c in
    let (base, f) = actions_of_ends i.base_workflows b in
    rw (e, f) (exits (is_empty (gate_errors r same i current base)))
