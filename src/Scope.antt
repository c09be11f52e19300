-- ===== src/Scope.antt =====
-- src/symbol/scope.hpp: a scope with its table and the order of definition, and the chain of its parents,
-- the innermost scope first. A symbol is its name and its identity.
pub mod Lookup
mod Tests
use saqut.Prelude.{ℕ, Bool, true, false, Option, none, some, List, [], ◌∷◌, ◌++◌, if◌then◌else◌}
use saqut.Types.{Text, eq_text}

pub record Symbol : Type 0 where
  pub name : Text
  pub identity : ℕ

pub record Scope : Type 0 where
  pub table : List (Text × Symbol)
  pub order : List Symbol

abbrev pub empty_scope : Scope
empty_scope = record { table = []; order = [] }

abbrev pub find : Text → List (Text × Symbol) → Option Symbol
find n [] = none
find n ((k, s) ∷ rest) = if eq_text k n then some s else find n rest

unfoldable pub lookup_local : Text → Scope → Option Symbol
lookup_local n sc = find n sc.table

-- `none` for a name that the scope has.
unfoldable pub define_local : Symbol → Scope → Option Scope
define_local s sc = elim (lookup_local s.name sc) [
  | some _ ↦ none
  | none ↦ some (record { table = (s.name, s) ∷ sc.table; order = sc.order ++ s ∷ [] })
]

unfoldable pub resolve : Text → List Scope → Option Symbol
resolve n [] = none
resolve n (sc ∷ parents) = elim (lookup_local n sc) [ some s ↦ some s | none ↦ resolve n parents ]
