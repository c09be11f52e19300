-- ===== src/Types.antt =====
-- src/core/type.hpp: the types of the language. A `Type` with its kind is a constructor that holds the
-- fields of that kind and the flag `nullable`; a text is the list of its bytes.
pub mod Names
pub mod Equality
mod Tests
use saqut.Prelude.{
  ℕ, zero, suc, Bool, true, false, not, ◌&&◌, ◌||◌, Option, none, some, List, [], ◌∷◌, ◌++◌, ◌==◌,
  if◌then◌else◌,
}

abbrev pub Text : Type 0
Text = List ℕ

pub data PrimitiveKind : Type 0 where
  int long_int float double decimal byte char string bool void date : PrimitiveKind

mutual
  pub data DataType : Type 0 where
    primitive : PrimitiveKind → Bool → DataType
    array : DataType → Bool → DataType
    struct_type : Text → Bool → DataType
    enum_type : Text → Bool → DataType
    function : DataType → DataTypes → Bool → DataType
    error : Bool → DataType

  -- The types of the parameters.
  pub data DataTypes : Type 0 where
    no_types : DataTypes
    more : DataType → DataTypes → DataTypes

abbrev pub is_error : DataType → Bool
is_error (error _) = true
is_error _ = false

abbrev pub nullable : DataType → Bool
nullable (primitive p q) = q
nullable (array t q) = q
nullable (struct_type n q) = q
nullable (enum_type n q) = q
nullable (function r ps q) = q
nullable (error q) = q

-- `asNullable` and `asNonNull`: a copy with the flag set or cleared.
abbrev pub with_nullable : Bool → DataType → DataType
with_nullable q (primitive p _) = primitive p q
with_nullable q (array t _) = array t q
with_nullable q (struct_type n _) = struct_type n q
with_nullable q (enum_type n _) = enum_type n q
with_nullable q (function r ps _) = function r ps q
with_nullable q (error _) = error q

abbrev pub is_numeric : DataType → Bool
is_numeric (primitive int _) = true
is_numeric (primitive long_int _) = true
is_numeric (primitive float _) = true
is_numeric (primitive double _) = true
is_numeric (primitive decimal _) = true
is_numeric (primitive byte _) = true
is_numeric _ = false

abbrev pub is_integral : DataType → Bool
is_integral (primitive int _) = true
is_integral (primitive long_int _) = true
is_integral _ = false

-- The type of the literal null.
abbrev pub is_null_literal : DataType → Bool
is_null_literal (primitive void q) = q
is_null_literal _ = false

-- The order of the enumeration, by which two kinds are compared.
abbrev pub prim_index : PrimitiveKind → ℕ
prim_index int = 0
prim_index long_int = 1
prim_index float = 2
prim_index double = 3
prim_index decimal = 4
prim_index byte = 5
prim_index char = 6
prim_index string = 7
prim_index bool = 8
prim_index void = 9
prim_index date = 10

abbrev pub eq_bool : Bool → Bool → Bool
eq_bool true b = b
eq_bool false b = not b

abbrev pub eq_text : Text → Text → Bool
eq_text [] [] = true
eq_text [] (_ ∷ _) = false
eq_text (_ ∷ _) [] = false
eq_text (x ∷ xs) (y ∷ ys) = (x == y) && eq_text xs ys

unfoldable mutual
  pub equals : DataType → DataType → Bool
  equals (primitive p q) (primitive p' q') = eq_bool q q' && (prim_index p == prim_index p')
  equals (array t q) (array t' q') = eq_bool q q' && equals t t'
  equals (struct_type n q) (struct_type n' q') = eq_bool q q' && eq_text n n'
  equals (enum_type n q) (enum_type n' q') = eq_bool q q' && eq_text n n'
  equals (function r ps q) (function r' ps' q') = eq_bool q q' && (equals r r' && equals_all ps ps')
  equals (error q) (error q') = eq_bool q q'
  equals _ _ = false

  -- Lists of different lengths differ.
  pub equals_all : DataTypes → DataTypes → Bool
  equals_all no_types no_types = true
  equals_all (more t ts) (more t' ts') = equals t t' && equals_all ts ts'
  equals_all _ _ = false

-- Equality whatever the flag of the two types is; the flags inside them are compared.
unfoldable pub equals_base : DataType → DataType → Bool
equals_base a b = equals (with_nullable false a) (with_nullable false b)

abbrev pub prim_name : PrimitiveKind → Text
prim_name int = 105 ∷ 110 ∷ 116 ∷ []
prim_name long_int = 108 ∷ 111 ∷ 110 ∷ 103 ∷ 105 ∷ 110 ∷ 116 ∷ []
prim_name float = 102 ∷ 108 ∷ 111 ∷ 97 ∷ 116 ∷ []
prim_name double = 100 ∷ 111 ∷ 117 ∷ 98 ∷ 108 ∷ 101 ∷ []
prim_name decimal = 100 ∷ 101 ∷ 99 ∷ 105 ∷ 109 ∷ 97 ∷ 108 ∷ []
prim_name byte = 98 ∷ 121 ∷ 116 ∷ 101 ∷ []
prim_name date = 100 ∷ 97 ∷ 116 ∷ 101 ∷ []
prim_name char = 99 ∷ 104 ∷ 97 ∷ 114 ∷ []
prim_name string = 115 ∷ 116 ∷ 114 ∷ 105 ∷ 110 ∷ 103 ∷ []
prim_name bool = 98 ∷ 111 ∷ 111 ∷ 108 ∷ []
prim_name void = 118 ∷ 111 ∷ 105 ∷ 100 ∷ []

-- The text from its last byte to its first.
abbrev pub backwards : Text → Text → Text
backwards [] acc = acc
backwards (x ∷ xs) acc = backwards xs (x ∷ acc)

abbrev pub is_name_of : PrimitiveKind → Text → Bool
is_name_of p r = eq_text r (backwards (prim_name p) [])

-- The chain of comparisons of `fromName`, on a name that is read backwards.
unfoldable pub named : Text → Option PrimitiveKind
named r =
    if is_name_of int r
    then some int
    else if is_name_of long_int r
    then some long_int
    else if is_name_of float r
    then some float
    else if is_name_of double r
    then some double
    else if is_name_of decimal r
    then some decimal
    else if is_name_of byte r
    then some byte
    else if is_name_of date r
    then some date
    else if is_name_of char r
    then some char
    else if is_name_of string r
    then some string
    else if is_name_of bool r
    then some bool
    else if is_name_of void r
    then some void
    else none

abbrev pub named_or : Option PrimitiveKind → DataType → DataType
named_or (some p) t = primitive p false
named_or none t = t

-- A suffix is read off a type that is not an error.
abbrev pub nullable_of : DataType → DataType
nullable_of t = if is_error t then error false else with_nullable true t

abbrev pub array_of : DataType → DataType
array_of t = if is_error t then error false else array t false

-- `fromName` strips suffixes off the end of a name, so the name is read backwards: 63 is `?`, and 93
-- and 91 are the brackets.
unfoldable pub from_backwards : Text → DataType
from_backwards [] = error false
from_backwards (x ∷ []) = if x == 63 then error false else named_or (named (x ∷ [])) (error false)
from_backwards (x ∷ y ∷ r) =
    let base = from_backwards (y ∷ r) in
    let elem = from_backwards r in
    if x == 63
    then nullable_of base
    else named_or (named (x ∷ y ∷ r))
        (if (x == 93) && (y == 91) then array_of elem else error false)

unfoldable pub from_name : Text → DataType
from_name n = from_backwards (backwards n [])

abbrev pub null_mark : Bool → Text
null_mark true = 63 ∷ []
null_mark false = []

abbrev pub struct_prefix : Text
struct_prefix = 115 ∷ 116 ∷ 114 ∷ 117 ∷ 99 ∷ 116 ∷ 32 ∷ []

unfoldable mutual
  pub to_string : DataType → Text
  to_string (primitive p q) = prim_name p ++ null_mark q
  to_string (array t q) = (to_string t ++ (91 ∷ 93 ∷ [])) ++ null_mark q
  to_string (struct_type n q) = (struct_prefix ++ n) ++ null_mark q
  to_string (enum_type n q) = n ++ null_mark q
  to_string (function r ps q) =
      ((102 ∷ 110 ∷ 40 ∷ []) ++ comma_separated ps ++ (41 ∷ 45 ∷ 62 ∷ []) ++ to_string r)
      ++ null_mark q
  to_string (error q) = 60 ∷ 101 ∷ 114 ∷ 114 ∷ 111 ∷ 114 ∷ 62 ∷ []

  pub comma_separated : DataTypes → Text
  comma_separated no_types = []
  comma_separated (more t no_types) = to_string t
  comma_separated (more t (more u ts)) = to_string t ++ (44 ∷ []) ++ comma_separated (more u ts)
