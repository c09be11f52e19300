-- ===== src/Types/Equality.antt =====
-- `Type::equals` and equality.
use saqut.Prelude.{
  ℕ, ◌≡◌, ◌↔◌, refl, sym, ap, ◌∙◌, Bool, true, false, ◌&&◌, [], ◌∷◌, ◌==◌, if◌then◌else◌, ==_refl,
  ==_iff,
}
use saqut.Types.{
  Text, PrimitiveKind, int, long_int, float, double, decimal, byte, char, string, bool, void, date,
  DataType, DataTypes, primitive, array, struct_type, enum_type, function, error, no_types, more,
  prim_index, eq_bool, eq_text, equals, equals_all,
}

&&-cases : (a b : Bool) → (a && b) ≡ true → (a ≡ true) × (b ≡ true)
&&-cases true b h = (refl, h)
&&-cases false b h = cc

&&-true : {a b : Bool} → a ≡ true → b ≡ true → (a && b) ≡ true
&&-true h k = rw (h, k) refl

eq_bool_refl : (a : Bool) → eq_bool a a ≡ true
eq_bool_refl true = refl
eq_bool_refl false = refl

eq_bool-eq : (a b : Bool) → eq_bool a b ≡ true → a ≡ b
eq_bool-eq true b h = sym h
eq_bool-eq false true h = cc
eq_bool-eq false false h = refl

pub eq_text_refl : (a : Text) → eq_text a a ≡ true
eq_text_refl [] = refl
eq_text_refl (x ∷ xs) = &&-true (==_refl x) (eq_text_refl xs)

pub eq_text-eq : (a b : Text) → eq_text a b ≡ true → a ≡ b
eq_text-eq [] [] h = refl
eq_text-eq [] (_ ∷ _) h = cc
eq_text-eq (_ ∷ _) [] h = cc
eq_text-eq (x ∷ xs) (y ∷ ys) h =
    let (p, q) = &&-cases _ _ h in cc ((==_iff x y).0 p, eq_text-eq xs ys q)

-- The primitive type of an index, a left inverse of `prim_index`.
from_index : ℕ → PrimitiveKind
from_index n =
    if n == 0
    then int
    else if n == 1
    then long_int
    else if n == 2
    then float
    else if n == 3
    then double
    else if n == 4
    then decimal
    else if n == 5
    then byte
    else if n == 6
    then char
    else if n == 7
    then string
    else if n == 8
    then bool
    else if n == 9
    then void
    else date

from_index-prim_index : (p : PrimitiveKind) → from_index (prim_index p) ≡ p
unfolding from_index
from_index-prim_index int = refl
from_index-prim_index long_int = refl
from_index-prim_index float = refl
from_index-prim_index double = refl
from_index-prim_index decimal = refl
from_index-prim_index byte = refl
from_index-prim_index char = refl
from_index-prim_index string = refl
from_index-prim_index bool = refl
from_index-prim_index void = refl
from_index-prim_index date = refl

prim_index-eq : (p q : PrimitiveKind) → (prim_index p == prim_index q) ≡ true → p ≡ q
prim_index-eq p q h =
    sym (from_index-prim_index p) ∙ ap from_index ((==_iff _ _).0 h) ∙ from_index-prim_index q

mutual
  unfolding equals

  equals_refl : (t : DataType) → equals t t ≡ true
  equals_refl (primitive p q) = &&-true (eq_bool_refl q) (==_refl (prim_index p))
  equals_refl (array t q) = &&-true (eq_bool_refl q) (equals_refl t)
  equals_refl (struct_type n q) = &&-true (eq_bool_refl q) (eq_text_refl n)
  equals_refl (enum_type n q) = &&-true (eq_bool_refl q) (eq_text_refl n)
  equals_refl (function r ps q) =
      &&-true (eq_bool_refl q) (&&-true (equals_refl r) (equals_all_refl ps))
  equals_refl (error q) = eq_bool_refl q

  equals_all_refl : (ts : DataTypes) → equals_all ts ts ≡ true
  equals_all_refl no_types = refl
  equals_all_refl (more t ts) = &&-true (equals_refl t) (equals_all_refl ts)

mutual
  unfolding equals

  equals-eq : (a b : DataType) → equals a b ≡ true → a ≡ b
  equals-eq (primitive p q) (primitive p' q') h =
      let (x, y) = &&-cases _ _ h in cc (eq_bool-eq q q' x, prim_index-eq p p' y)
  equals-eq (array t q) (array t' q') h =
      let (x, y) = &&-cases _ _ h in cc (eq_bool-eq q q' x, equals-eq t t' y)
  equals-eq (struct_type n q) (struct_type n' q') h =
      let (x, y) = &&-cases _ _ h in cc (eq_bool-eq q q' x, eq_text-eq n n' y)
  equals-eq (enum_type n q) (enum_type n' q') h =
      let (x, y) = &&-cases _ _ h in cc (eq_bool-eq q q' x, eq_text-eq n n' y)
  equals-eq (function r ps q) (function r' ps' q') h =
      let (x, y) = &&-cases _ _ h in
      let (u, v) = &&-cases _ _ y in
      cc (eq_bool-eq q q' x, equals-eq r r' u, equals_all-eq ps ps' v)
  equals-eq (error q) (error q') h = ap error (eq_bool-eq q q' h)
  equals-eq _ _ h = cc

  equals_all-eq : (a b : DataTypes) → equals_all a b ≡ true → a ≡ b
  equals_all-eq no_types no_types h = refl
  equals_all-eq (more t ts) (more t' ts') h =
      let (x, y) = &&-cases _ _ h in cc (equals-eq t t' x, equals_all-eq ts ts' y)
  equals_all-eq _ _ h = cc

-- `equals` answers true exactly for the same type, the flags `nullable` included.
pub equals_iff : (a b : DataType) → (equals a b ≡ true) ↔ (a ≡ b)
equals_iff a b = (equals-eq a b, λ e. rw (← e) (equals_refl a))
