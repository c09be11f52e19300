-- ===== src/Types/Names.antt =====
-- `Type::fromName` and `Type::toString`.
use saqut.Prelude.{◌≡◌, refl, sym, ◌∙◌, Bool, true, false, none, [], ◌∷◌, ◌++◌, append-nil}
use saqut.Types.{
  Text, PrimitiveKind, int, long_int, float, double, decimal, byte, char, string, bool, void, date,
  DataType, primitive, array, struct_type, enum_type, function, error, is_error, prim_name,
  backwards, named, from_backwards, from_name, to_string, nullable_of, array_of, with_nullable,
  null_mark,
}

-- The types that have a name of their own in the source text: primitives and arrays of such types.
abbrev pub HasName : DataType → Type 0
HasName (primitive p q) = Unit
HasName (array t q) = HasName t
HasName (struct_type n q) = ⊥
HasName (enum_type n q) = ⊥
HasName (function r ps q) = ⊥
HasName (error q) = ⊥

backwards-append : (xs ys acc : Text) → backwards (xs ++ ys) acc ≡ backwards ys (backwards xs acc)
backwards-append [] ys acc = refl
backwards-append (x ∷ xs) ys acc = backwards-append xs ys (x ∷ acc)

named-prim : (p : PrimitiveKind) → from_backwards (backwards (prim_name p) []) ≡ primitive p false
unfolding from_backwards named
named-prim int = refl
named-prim long_int = refl
named-prim float = refl
named-prim double = refl
named-prim decimal = refl
named-prim byte = refl
named-prim char = refl
named-prim string = refl
named-prim bool = refl
named-prim void = refl
named-prim date = refl

-- No primitive name ends in a bracket.
named-bracket : (r : Text) → named (93 ∷ r) ≡ none
unfolding named
named-bracket r = refl

from-nullable : (r : Text) → from_backwards (63 ∷ r) ≡ nullable_of (from_backwards r)
unfolding from_backwards
from-nullable [] = refl
from-nullable (x ∷ r) = refl

from-array : (r : Text) → from_backwards (93 ∷ 91 ∷ r) ≡ array_of (from_backwards r)
unfolding from_backwards named
from-array r = refl

-- The mark of a nullable type is read last, and changes the flag alone.
read_mark :
    (s : Text) (q : Bool) (t : DataType)
    → is_error t ≡ false
    → with_nullable false t ≡ t
    → from_backwards (backwards s []) ≡ t
    → from_backwards (backwards (s ++ null_mark q) []) ≡ with_nullable q t
read_mark s false t e same h = rw (append-nil s) (h ∙ sym same)
read_mark s true t e same h =
    rw (backwards-append s (63 ∷ []) [], from-nullable (backwards s []), h, e) refl

HasName-no_error : (t : DataType) → HasName t → is_error t ≡ false
HasName-no_error (primitive p q) h = refl
HasName-no_error (array t q) h = refl
HasName-no_error (struct_type n q) h = absurd h
HasName-no_error (enum_type n q) h = absurd h
HasName-no_error (function r ps q) h = absurd h
HasName-no_error (error q) h = absurd h

read_array :
    (s : Text) (t : DataType)
    → is_error t ≡ false
    → from_backwards (backwards s []) ≡ t
    → from_backwards (backwards (s ++ 91 ∷ 93 ∷ []) []) ≡ array t false
read_array s t e h =
    rw (backwards-append s (91 ∷ 93 ∷ []) [], from-array (backwards s []), h, e) refl

-- What `toString` prints for a type made of primitives and arrays, nullable or not at every
-- level, `fromName` reads back as the same type.
pub from_name-to_string : (t : DataType) → HasName t → from_name (to_string t) ≡ t
unfolding from_name to_string
from_name-to_string (primitive p q) h =
    read_mark (prim_name p) q (primitive p false) refl refl (named-prim p)
from_name-to_string (array t q) h =
    read_mark (to_string t ++ 91 ∷ 93 ∷ []) q (array t false) refl refl
      (read_array (to_string t) t (HasName-no_error t h) (from_name-to_string t h))
from_name-to_string (struct_type n q) h = absurd h
from_name-to_string (enum_type n q) h = absurd h
from_name-to_string (function r ps q) h = absurd h
from_name-to_string (error q) h = absurd h
