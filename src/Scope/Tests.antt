-- ===== src/Scope/Tests.antt =====
-- A name that shadows another.
use saqut.Prelude.{◌≡◌, refl, none, [], ◌∷◌}
use saqut.Scope.{Symbol, Scope, empty_scope, define_local, lookup_local}
use saqut.Scope.Lookup.{Defines, define_local-Defines}

abbrev inner_x : Symbol
inner_x = record { name = 120 ∷ []; identity = 1 }

abbrev outer : Scope
outer = record {
  table = (120 ∷ [], record { name = 120 ∷ []; identity = 0 }) ∷ [];
  order = record { name = 120 ∷ []; identity = 0 } ∷ [];
}

duplicate_test : define_local inner_x outer ≡ none
unfolding define_local lookup_local
duplicate_test = refl

define_local-Defines_example :
    Defines inner_x empty_scope (outer ∷ []) (define_local inner_x empty_scope)
define_local-Defines_example = define_local-Defines inner_x empty_scope (outer ∷ [])
