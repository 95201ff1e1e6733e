-- ===== src/Listen/Channel.antt =====
-- `_quote_identifier` of src/dewey/listen_sync.py, over the code points of the channel's name, and
-- how PostgreSQL reads a quoted identifier: a doubled quote is a quote, a single one ends it.
use dewey.Prelude.{
  ℕ, ◌≡◌, Option, none, some, List, [], ◌∷◌, ◌++◌, ◌==◌, map_option, refl, ap, ◌∙◌, false,
  Bool-cases, inl, inr, ==_iff, if◌then◌else◌,
}

abbrev pub quote : ℕ
quote = b'"'

-- `name.replace('"', '""')`
unfoldable pub doubled : List ℕ → List ℕ
doubled [] = []
doubled (c ∷ cs) = let rest = doubled cs in if c == quote then quote ∷ quote ∷ rest else c ∷ rest

unfoldable pub quote_identifier : List ℕ → List ℕ
unfolding doubled
quote_identifier name = quote ∷ (doubled name ++ quote ∷ [])

abbrev more : ℕ → Option (List ℕ × List ℕ) → Option (List ℕ × List ℕ)
more c = map_option (λ (name, rest). (c ∷ name, rest))

-- Behind the opening quote: the name, and what follows it.
read_name : List ℕ → Option (List ℕ × List ℕ)
read_name [] = none
read_name (c ∷ []) = if c == quote then some ([], []) else none
read_name (c ∷ d ∷ cs) =
    let single = more c (read_name (d ∷ cs)) in
    let double = more quote (read_name cs) in
    if c == quote then (if d == quote then double else some ([], d ∷ cs)) else single

pub read_identifier : List ℕ → Option (List ℕ × List ℕ)
unfolding read_name
read_identifier [] = none
read_identifier (c ∷ cs) = if c == quote then read_name cs else none

read_name-cons :
    (c : ℕ) (cs : List ℕ) → (c == quote) ≡ false → read_name (c ∷ cs) ≡ more c (read_name cs)
unfolding read_name
read_name-cons c [] n = rw n refl
read_name-cons c (d ∷ cs) n = rw n refl

read_name-doubled : (name : List ℕ) → read_name (doubled name ++ quote ∷ []) ≡ some (name, [])
unfolding read_name doubled
read_name-doubled [] = refl
read_name-doubled (c ∷ name) = elim (Bool-cases (c == quote)) [
  | inl q ↦ rw (q, read_name-doubled name, (==_iff c quote).0 q) refl
  | inr n ↦ rw n (read_name-cons c _ n ∙ ap (more c) (read_name-doubled name))
]

-- The statement LISTEN names the channel and nothing more, whatever its name holds.
pub read_identifier-quote_identifier :
    (name : List ℕ) → read_identifier (quote_identifier name) ≡ some (name, [])
unfolding read_identifier quote_identifier
read_identifier-quote_identifier name = read_name-doubled name
