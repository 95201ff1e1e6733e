-- ===== src/Admission/Workflow/Walk.antt =====
-- The walk over a document ends, also where aliases make it cyclic.
use dewey.Prelude.{
  ℕ, zero, suc, ◌≤◌, ◌<◌, false, Option, none, some, List, [], ◌∷◌, ◌≡◌, refl, arith, All, All-mono,
  contains, str_eq, Bool-cases, inl, inr, if◌then◌else◌,
}
use dewey.Admission.Workflow.{
  Node, scalar, mapping, sequence, Found, and_then, uses_entry, walk_pairs, walk_items, walk_node,
  walk,
}

-- How many of the first n nodes are not on the way.
unseen : ℕ → List ℕ → ℕ
unseen zero active = 0
unseen (suc n) active = let rest = unseen n active in if contains n active then rest else suc rest

unseen-cons_above : (n i : ℕ) (active : List ℕ) → n ≤ i → unseen n (i ∷ active) ≡ unseen n active
unfolding unseen
unseen-cons_above zero i active h = refl
unseen-cons_above (suc n) i active h = ground (arith, unseen-cons_above n i active)

unseen-cons :
    (n i : ℕ) (active : List ℕ)
    → i < n
    → contains i active ≡ false
    → suc (unseen n (i ∷ active)) ≡ unseen n active
unfolding unseen
unseen-cons zero i active h new = elim h [ ]
unseen-cons (suc n) i active h new =
    ground (arith, unseen-cons n i active, unseen-cons_above n i active)

-- The keys and values of a mapping.
abbrev pub flat : List (ℕ × ℕ) → List ℕ
flat [] = []
flat ((k, v) ∷ pairs) = k ∷ v ∷ flat pairs

-- A call that returned.
abbrev pub Returns : Option Found → Type 0
Returns r = (f : Found) × (r ≡ some f)

and_then-Returns : (a b : Option Found) → Returns a → Returns b → Returns (and_then a b)
unfolding and_then
and_then-Returns none b (f, h) r = cc h
and_then-Returns (some f) none q (g, h) = cc h
and_then-Returns (some (es, xs)) (some (es', xs')) q r = (_, refl)

uses_entry-Returns : (k v : Node) → Returns (uses_entry k v)
unfolding uses_entry
uses_entry-Returns (scalar line tag key) v = elim (Bool-cases (str_eq key "uses")) [
  | inl y ↦ rw y (_, refl)
  | inr n ↦ rw n (_, refl)
]
uses_entry-Returns (mapping line pairs) v = (_, refl)
uses_entry-Returns (sequence line items) v = (_, refl)

-- The parts of a node.
abbrev pub parts : Node → List ℕ
parts (scalar line tag value) = []
parts (mapping line pairs) = flat pairs
parts (sequence line items) = items

module _ (node : ℕ → Node) (visit : ℕ → Option Found) where
  walk_items-Returns :
      (items : List ℕ) → All (λ i. Returns (visit i)) items → Returns (walk_items node visit items)
  unfolding walk_items
  walk_items-Returns [] h = (_, refl)
  walk_items-Returns (i ∷ items) h = and_then-Returns _ _ h.0 (walk_items-Returns items h.1)

  walk_pairs-Returns :
      (pairs : List (ℕ × ℕ))
      → All (λ i. Returns (visit i)) (flat pairs)
      → Returns (walk_pairs node visit pairs)
  unfolding walk_pairs
  walk_pairs-Returns [] h = (_, refl)
  walk_pairs-Returns ((k, v) ∷ pairs) h =
      and_then-Returns _ _ (uses_entry-Returns (node k) (node v))
        (and_then-Returns _ _ h.0 (and_then-Returns _ _ h.1.0 (walk_pairs-Returns pairs h.1.1)))

  walk_node-Returns :
      (n : Node) → All (λ i. Returns (visit i)) (parts n) → Returns (walk_node node visit n)
  walk_node-Returns (scalar line tag value) h = (_, refl)
  walk_node-Returns (mapping line pairs) h = walk_pairs-Returns pairs h
  walk_node-Returns (sequence line items) h = walk_items-Returns items h

-- A document of n nodes: the parts of a node are among them.
abbrev pub IsDocument : ℕ → (ℕ → Node) → Type 0
IsDocument n node = (i : ℕ) → i < n → All (λ j. j < n) (parts (node i))

walk-Returns :
    (n : ℕ) (node : ℕ → Node) (d : IsDocument n node) (fuel : ℕ) (active : List ℕ) (i : ℕ)
    → i < n
    → unseen n active < fuel
    → Returns (walk node fuel active i)
unfolding walk
walk-Returns n node d zero active i h enough = elim enough [ ]
walk-Returns n node d (suc fuel) active i h enough = elim (Bool-cases (contains i active)) [
  | inl y ↦ rw y (_, refl)
  | inr new ↦ rw new (
      walk_node-Returns node (walk node fuel (i ∷ active)) (node i) (
        All-mono (λ j. Returns (walk node fuel (i ∷ active) j)) (λ j. j < n)
          (λ j below.
            walk-Returns n node d fuel (i ∷ active) j below
              (omega (arith, unseen-cons n i active h new)))
          (parts (node i)) (d i h)))
]

unseen-nil : (n : ℕ) → unseen n [] ≡ n
unfolding unseen
unseen-nil zero = refl
unseen-nil (suc n) = omega (arith, unseen-nil n)

-- The walk ends, also over a document whose aliases make it cyclic: one step more than there are
-- nodes is enough on any way.
pub walk_ends :
    (n : ℕ) (node : ℕ → Node) (root : ℕ)
    → IsDocument n node
    → root < n
    → (f : Found) × (walk node (suc n) [] root ≡ some f)
walk_ends n node root d h = walk-Returns n node d (suc n) [] root h (omega (arith, unseen-nil n))
