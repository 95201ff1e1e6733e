-- ===== src/Admission/Patterns.antt =====
-- The regular expressions of scripts/dependency_admission.py, as tests on code points.
use Prim.Native.Char.{code}
use Prim.Native.String.{String}
use dewey.Prelude.{
  ℕ, Bool, true, false, not, ◌&&◌, ◌||◌, Option, none, some, List, [], ◌∷◌, length, leb, ◌==◌,
  if◌then◌else◌,
}

abbrev pub codes : String → List ℕ
codes String.[] = []
codes (String.◌∷◌ c s) = code c ∷ codes s

abbrev in_range : ℕ → ℕ → ℕ → Bool
in_range lo hi c = leb lo c && leb c hi

-- `\s`
unfoldable pub is_space : ℕ → Bool
is_space c =
    in_range 9 13 c
    || in_range 28 32 c
    || c == 133
    || c == 160
    || c == 5_760
    || in_range 8_192 8_202 c
    || c == 8_232
    || c == 8_233
    || c == 8_239
    || c == 8_287
    || c == 12_288

-- `[0-9a-f]`
unfoldable pub is_hex : ℕ → Bool
is_hex c = in_range b'0' b'9' c || in_range b'a' b'f' c

-- What stands behind a prefix.
unfoldable pub behind : List ℕ → List ℕ → Option (List ℕ)
behind [] cs = some cs
behind (p ∷ ps) [] = none
behind (p ∷ ps) (c ∷ cs) = let rest = behind ps cs in if c == p then rest else none

unfoldable pub all_of : (ℕ → Bool) → List ℕ → Bool
all_of test [] = true
all_of test (c ∷ cs) = test c && all_of test cs

unfoldable pub skip : (ℕ → Bool) → List ℕ → List ℕ
skip test [] = []
skip test (c ∷ cs) = let rest = skip test cs in if test c then rest else c ∷ cs

-- The longest run in front, and what follows it.
unfoldable pub span : (ℕ → Bool) → List ℕ → List ℕ × List ℕ
span test [] = ([], [])
span test (c ∷ cs) =
    let (run, rest) = span test cs in if test c then (c ∷ run, rest) else ([], c ∷ cs)

-- `^[0-9a-f]{40}$` and the like.
unfoldable pub is_hex_of : ℕ → List ℕ → Bool
unfolding is_hex all_of
is_hex_of n cs = length cs == n && all_of is_hex cs

abbrev hex_behind : Option (List ℕ) → Bool
hex_behind none = false
hex_behind (some cs) = is_hex_of 64 cs

-- `SHA256`
unfoldable pub is_sha256 : String → Bool
unfolding behind is_hex_of
is_sha256 s = hex_behind (behind (codes "sha256:") (codes s))

-- `FULL_COMMIT`
unfoldable pub is_full_commit : List ℕ → Bool
unfolding is_hex_of
is_full_commit cs = is_hex_of 40 cs

-- `(?:-\s*)?`
abbrev optional_dash : List ℕ → List ℕ
optional_dash (c ∷ cs) = if c == b'-' then skip is_space cs else c ∷ cs
optional_dash [] = []

abbrev is_comment : List ℕ → Bool
is_comment (c ∷ cs) = c == b'#'
is_comment [] = false

-- `(?:\s+#.*)?$`
abbrev ends_or_comment : List ℕ → Bool
ends_or_comment [] = true
ends_or_comment (c ∷ cs) = is_space c && is_comment (skip is_space cs)

abbrev reference_in : List ℕ × List ℕ → Option (List ℕ)
reference_in ([], rest) = none
reference_in (c ∷ cs, rest) = if ends_or_comment rest then some (c ∷ cs) else none

-- `\s+([^\s#]+)`
abbrev value_in : Option (List ℕ) → Option (List ℕ)
value_in none = none
value_in (some []) = none
value_in (some (c ∷ cs)) =
    if is_space c
    then reference_in (span (λ d. not (is_space d || d == b'#')) (skip is_space cs))
    else none

-- `ACTION_PIN.match(line)` and its group.
unfoldable pub action_pin : List ℕ → Option (List ℕ)
unfolding is_space skip span behind
action_pin line = value_in (behind (codes "uses:") (optional_dash (skip is_space line)))
