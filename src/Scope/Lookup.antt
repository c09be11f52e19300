-- ===== src/Scope/Lookup.antt =====
-- Definitions and what names resolve to.
use saqut.Prelude.{
  ◌≡◌, ◌≢◌, refl, Bool-cases, Option-cases, Option, none, some, List, [], ◌∷◌, ◌++◌, inl, inr,
  if◌then◌else◌,
}
use saqut.Types.{Text, eq_text}
use saqut.Scope.{Symbol, Scope, lookup_local, define_local, resolve}

-- A definition succeeds exactly where the scope does not have the name, and then the name resolves to
-- the symbol, and every other name to what it did.
abbrev pub Defines : Symbol → Scope → List Scope → Option Scope → Type 0
Defines s sc parents none = lookup_local s.name sc ≢ none
Defines s sc parents (some sc') =
    (lookup_local s.name sc ≡ none)
    × ((n : Text)
        → resolve n (sc' ∷ parents)
          ≡ (if eq_text s.name n then some s else resolve n (sc ∷ parents)))

resolve-defined :
    (s : Symbol) (sc : Scope) (parents : List Scope) (n : Text)
    → resolve n (record { table = (s.name, s) ∷ sc.table; order = sc.order ++ s ∷ [] } ∷ parents)
      ≡ (if eq_text s.name n then some s else resolve n (sc ∷ parents))
unfolding resolve lookup_local
resolve-defined s sc parents n = elim (Bool-cases (eq_text s.name n)) [
  | inl e ↦ rw (resolve, lookup_local, e) refl
  | inr e ↦ rw (resolve, lookup_local, e) refl
]

-- A definition fails only where the scope has the name already; where it succeeds the scope did
-- not have it, the name resolves to the new symbol, shadowing the parents, and every other name
-- to what it did.
pub define_local-Defines :
    (s : Symbol) (sc : Scope) (parents : List Scope) → Defines s sc parents (define_local s sc)
unfolding define_local
define_local-Defines s sc parents = elim (Option-cases (lookup_local s.name sc)) [
  | inl e ↦ rw (define_local, e) (e, λ n. resolve-defined s sc parents n)
  | inr (t, e) ↦ rw (define_local, e) (λ p. cc (p, e))
]
