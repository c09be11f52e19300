-- ===== src/Types/Tests.antt =====
-- Concrete types of src/core/type.hpp.
use saqut.Prelude.{◌≡◌, ◌↔◌, refl, true, false, [], ◌∷◌}
use saqut.Types.{
  DataType, int, string, primitive, array, error, equals, equals_base, from_name, to_string,
}
use saqut.Types.Equality.{equals_iff}
use saqut.Types.Names.{from_name-to_string}

-- int?[]
abbrev nullable_ints : DataType
nullable_ints = array (primitive int true) false

to_string_test : to_string nullable_ints ≡ 105 ∷ 110 ∷ 116 ∷ 63 ∷ 91 ∷ 93 ∷ []
unfolding to_string
to_string_test = refl

-- The name of an array without an element type.
from_name_test : from_name (91 ∷ 93 ∷ []) ≡ error false
unfolding from_name saqut.Types.from_backwards saqut.Types.named
from_name_test = refl

equals_base_test : equals_base (primitive int true) (primitive int false) ≡ true
unfolding equals_base equals
equals_base_test = refl

from_name-to_string_example : from_name (to_string nullable_ints) ≡ nullable_ints
from_name-to_string_example = from_name-to_string nullable_ints tt

equals_iff_example : (equals nullable_ints nullable_ints ≡ true) ↔ (nullable_ints ≡ nullable_ints)
equals_iff_example = equals_iff nullable_ints nullable_ints
