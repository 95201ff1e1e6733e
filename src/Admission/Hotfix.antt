-- ===== src/Admission/Hotfix.antt =====
-- The exception for a hotfix: `hotfix_exception` of scripts/dependency_admission.py and its two regular
-- expressions, read without regard to case at the start of a line.
use dewey.Prelude.{
  ℕ, ◌+◌, String, Bool, true, false, not, ◌&&◌, ◌||◌, Option, none, some, List, [], ◌∷◌, leb, ◌==◌,
  str_eq, if◌then◌else◌,
}
use dewey.Admission.Patterns.{codes, is_space, behind, skip}

-- The letter that a code point matches under IGNORECASE, with the four letters beyond ASCII.
abbrev lower : ℕ → ℕ
lower c =
    if leb b'A' c && leb c b'Z'
    then c + 32
    else if c == 304 || c == 305
    then b'i'
    else if c == 383
    then b's'
    else if c == 8_490
    then b'k'
    else c

unfoldable pub lowered : List ℕ → List ℕ
lowered [] = []
lowered (c ∷ cs) = lower c ∷ lowered cs

-- `\s*\S.+$`
abbrev has_text : List ℕ → Bool
has_text (c ∷ d ∷ cs) = not (d == 10)
has_text cs = false

abbrev ends_line : List ℕ → Bool
ends_line [] = true
ends_line (c ∷ cs) = c == 10

-- `\S+$`
abbrev has_word : List ℕ → Bool
has_word (c ∷ cs) = not (is_space c) && ends_line (skip (λ d. not (is_space d)) cs)
has_word [] = false

abbrev rationale_at : Option (List ℕ) → Bool
rationale_at none = false
rationale_at (some cs) = has_text (skip is_space cs)

abbrev url_at : Option (List ℕ) → Bool
url_at none = false
url_at (some cs) = has_word cs

abbrev upstream_at : Option (List ℕ) → Bool
upstream_at none = false
upstream_at (some cs) = url_at (behind (codes "https://") (skip is_space cs))

-- `search` with `(?m)^`: `starts` says whether a line starts here.
unfoldable pub at_some_line : (List ℕ → Bool) → Bool → List ℕ → Bool
at_some_line test starts [] = starts && test []
at_some_line test starts (c ∷ cs) = (starts && test (c ∷ cs)) || at_some_line test (c == 10) cs

unfoldable pub has_rationale : String → Bool
unfolding lowered at_some_line behind skip is_space
has_rationale body =
    at_some_line (λ cs. rationale_at (behind (codes "hotfix rationale:") cs)) true
      (lowered (codes body))

unfoldable pub has_upstream : String → Bool
unfolding lowered at_some_line behind skip is_space
has_upstream body =
    at_some_line (λ cs. upstream_at (behind (codes "upstream:") cs)) true (lowered (codes body))

-- The pull request of the event.
pub record PullRequest : Type 0 where
  pub labels : List String
  pub body : String

unfoldable pub has_label : String → List String → Bool
has_label label [] = false
has_label label (l ∷ labels) = str_eq l label || has_label label labels

unfoldable pub hotfix_exception : String → Option PullRequest → Bool
unfolding has_label has_rationale has_upstream
hotfix_exception label none = false
hotfix_exception label (some pr) =
    has_label label pr.labels && (has_rationale pr.body && has_upstream pr.body)
