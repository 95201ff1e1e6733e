-- ===== src/Admission.antt =====
-- scripts/dependency_admission.py: the gate that a change of the dependencies passes. What TOML, YAML
-- and JSON parse to, git, PyPI and GitHub are parameters; an error is a constructor in place of its
-- text.
pub mod Patterns
pub mod Lock
pub mod Workflow
pub mod Hotfix
pub mod Cooldown
pub mod Requirements
pub mod Gate
use dewey.Prelude.{ℕ, String, Option, none, some, List, [], ◌∷◌, ◌++◌}

-- An entry under `sdist` or `wheels`; a field is `none` where the key is absent.
pub record Artifact : Type 0 where
  pub url : String
  pub digest : Option String
  pub upload_time : Option String

pub data Source : Type 0 where
  registry : String → Source
  editable : String → Source
  other_source : ℕ → Source

-- A `[[package]]` of uv.lock; `rest` is what the gate only compares.
pub record Package : Type 0 where
  pub name : String
  pub version : String
  pub source : Source
  pub sdist : Option Artifact
  pub wheels : List Artifact
  pub rest : ℕ

abbrev as_list {ℓ} : {A : Type ℓ} → Option A → List A
as_list none = []
as_list (some a) = a ∷ []

abbrev pub artifacts : Package → List Artifact
artifacts p = as_list p.sdist ++ p.wheels
