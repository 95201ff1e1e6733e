-- ===== src/Admission/Requirements.antt =====
-- `validate_requirements` of scripts/dependency_admission.py: the requirements of pyproject.toml.
use dewey.Prelude.{
  ℕ, suc, ◌+◌, String, Bool, true, false, not, ◌&&◌, ◌||◌, Option, none, some, List, [], ◌∷◌, ◌++◌,
  ◌==◌, leb, str_eq, is_some, if◌then◌else◌,
}
use dewey.Admission.{Package}
use dewey.Admission.Patterns.{codes, is_space, behind, span, all_of}
use dewey.Admission.Workflow.{same_codes}

pub data RequirementError : Type 0 where
  direct_url : String → String → RequirementError
  build_group_differs not_one_parser not_pyyaml : RequirementError
  not_exact not_locked parser_not_locked : String → RequirementError

-- The values of pyproject.toml that the gate reads, with those of `admission_config`. `groups` are all
-- the groups of `requirement_groups`, by name.
pub record Project : Type 0 where
  pub name : String
  pub build_requires : List String
  pub groups : List (String × List String)
  pub build_group : List String
  pub parser_group : List String

abbrev lower : ℕ → ℕ
lower c = if leb b'A' c && leb c b'Z' then c + 32 else c

unfoldable pub lowered : List ℕ → List ℕ
lowered [] = []
lowered (c ∷ cs) = lower c ∷ lowered cs

-- `part in text`
unfoldable pub occurs : List ℕ → List ℕ → Bool
unfolding behind
occurs part [] = is_some (behind part [])
occurs part (c ∷ cs) = is_some (behind part (c ∷ cs)) || occurs part cs

unfoldable pub is_direct : String → Bool
unfolding occurs lowered
is_direct requirement =
    let text = lowered (codes requirement) in
    occurs (codes " @ ") (codes requirement)
    || occurs (codes "git+") text
    || occurs (codes "http://") text
    || occurs (codes "https://") text
    || occurs (codes "file:") text

abbrev is_name_char : ℕ → Bool
is_name_char c =
    (leb b'A' c && leb c b'Z')
    || (leb b'a' c && leb c b'z')
    || (leb b'0' c && leb c b'9')
    || c == b'_'
    || c == b'.'
    || c == b'-'

abbrev is_version_char : ℕ → Bool
is_version_char c = not (is_space c || c == b';')

abbrev version_in : List ℕ → Option (List ℕ) → Option (List ℕ × List ℕ)
version_in name none = none
version_in name (some []) = none
version_in name (some (c ∷ cs)) =
    if all_of is_version_char (c ∷ cs) then some (name, c ∷ cs) else none

abbrev requirement_in : List ℕ × List ℕ → Option (List ℕ × List ℕ)
requirement_in ([], rest) = none
requirement_in (c ∷ cs, rest) = version_in (c ∷ cs) (behind (codes "==") rest)

-- `EXACT_REQUIREMENT.fullmatch(requirement)`: the name and the version.
unfoldable pub exact_requirement : String → Option (List ℕ × List ℕ)
unfolding span behind all_of is_space
exact_requirement requirement = requirement_in (span is_name_char (codes requirement))

abbrev is_separator : ℕ → Bool
is_separator c = c == b'-' || c == b'_' || c == b'.'

-- `re.sub(r"[-_.]+", "-", name)`; `inside` says that a separator stands in front.
unfoldable pub collapsed : Bool → List ℕ → List ℕ
collapsed inside [] = []
collapsed inside (c ∷ cs) =
    let rest = collapsed (is_separator c) cs in
    if is_separator c then (if inside then rest else b'-' ∷ rest) else c ∷ rest

unfoldable pub normalize_name : List ℕ → List ℕ
unfolding collapsed lowered
normalize_name name = lowered (collapsed false name)

-- `(name, version) in locked`
unfoldable pub is_locked : List Package → List ℕ → List ℕ → Bool
unfolding normalize_name same_codes
is_locked [] name version = false
is_locked (p ∷ ps) name version =
    (same_codes (normalize_name (codes p.name)) name && same_codes (codes p.version) version)
    || is_locked ps name version

-- Two sorted lists are equal where each text stands as often in both.
unfoldable pub count : String → List String → ℕ
count s [] = 0
count s (t ∷ ts) = let rest = count s ts in if str_eq t s then suc rest else rest

unfoldable pub same_counts : List String → List String → List String → Bool
unfolding count
same_counts [] xs ys = true
same_counts (s ∷ ss) xs ys = count s xs == count s ys && same_counts ss xs ys

unfoldable pub direct_errors : String → List String → List RequirementError
unfolding is_direct
direct_errors group [] = []
direct_errors group (q ∷ qs) =
    let rest = direct_errors group qs in if is_direct q then direct_url group q ∷ rest else rest

unfoldable pub group_errors : List (String × List String) → List RequirementError
unfolding direct_errors
group_errors [] = []
group_errors ((group, qs) ∷ groups) = direct_errors group qs ++ group_errors groups

abbrev pub pin_error : List Package → String → Option (List ℕ × List ℕ) → List RequirementError
pin_error locked q none = not_exact q ∷ []
pin_error locked q (some (name, version)) =
    if is_locked locked (normalize_name name) version then [] else not_locked q ∷ []

unfoldable pub build_errors : List Package → List String → List RequirementError
unfolding exact_requirement is_locked normalize_name
build_errors locked [] = []
build_errors locked (q ∷ qs) = pin_error locked q (exact_requirement q) ++ build_errors locked qs

abbrev pub pyyaml_error : List Package → String → Option (List ℕ × List ℕ) → List RequirementError
pyyaml_error locked q none = not_pyyaml ∷ []
pyyaml_error locked q (some (name, version)) =
    if same_codes (normalize_name name) (codes "pyyaml")
    then (if is_locked locked (codes "pyyaml") version then [] else parser_not_locked q ∷ [])
    else not_pyyaml ∷ []

abbrev pub parser_errors : List Package → List String → List RequirementError
parser_errors locked (q ∷ []) = pyyaml_error locked q (exact_requirement q)
parser_errors locked qs = not_one_parser ∷ []

unfoldable pub validate_requirements : Project → List Package → List RequirementError
unfolding group_errors same_counts build_errors exact_requirement same_codes is_locked
    normalize_name
validate_requirements p locked =
    group_errors p.groups
    ++ ((if same_counts (p.build_requires ++ p.build_group) p.build_requires p.build_group
          then []
          else build_group_differs ∷ [])
        ++ (build_errors locked p.build_requires ++ parser_errors locked p.parser_group))
