-- ===== src/Cfg.antt =====
-- src/ir/ir_cfg.hpp and src/ir/ir_cfg.cpp: the control flow graph of a list of instructions, and the way
-- back to a list. A vector is a list, and an element is changed through its index.
pub mod Leaders
pub mod Slices
pub mod Edges
pub mod Shape
pub mod Loop
pub mod Roundtrip
mod Tests
use saqut.Prelude.{
  ℕ, zero, suc, ◌+◌, ◌-◌, Bool, true, false, not, ◌&&◌, ◌||◌, Option, none, some, List, [], ◌∷◌,
  ◌++◌, ltb, leb, ◌==◌, if◌then◌else◌, length, get_elem?, take, drop,
}
use saqut.Prelude.Int.{ℤ, pos, negsuc, is_neg, pos_part, eqb_ℤ}
use saqut.Ir.{Opcode, jmp, jif_false, jif_true, return, throw, Instruction}

pub record BasicBlock : Type 0 where
  pub id : ℕ
  pub start_index : ℕ
  pub end_index : ℕ
  pub instructions : List Instruction
  pub terminator : Opcode
  pub jump_target : ℤ
  pub predecessors : List ℕ
  pub successors : List ℕ

abbrev pub is_terminator : Opcode → Bool
is_terminator return = true
is_terminator throw = true
is_terminator _ = false

abbrev pub is_conditional : Opcode → Bool
is_conditional jif_false = true
is_conditional jif_true = true
is_conditional _ = false

abbrev pub is_unconditional : Opcode → Bool
is_unconditional jmp = true
is_unconditional _ = false

abbrev pub is_jump : Opcode → Bool
is_jump op = is_unconditional op || is_conditional op

-- A `std::set<int>`: ascending, without repetition.
unfoldable pub insert : ℕ → List ℕ → List ℕ
insert i [] = i ∷ []
insert i (x ∷ xs) = if ltb i x then i ∷ x ∷ xs else if i == x then x ∷ xs else x ∷ insert i xs

-- `insert` under one of the conditions of the loop.
abbrev pub insert_if : Bool → ℕ → List ℕ → List ℕ
insert_if b i set = if b then insert i set else set

-- The loop of `findLeaders` at index `i` of `n` instructions.
unfoldable pub leaders_from : ℕ → ℕ → List Instruction → List ℕ → List ℕ
leaders_from n i [] set = set
leaders_from n i (ins ∷ rest) set =
    let next_ok = ltb (i + 1) n in
    let after_end = insert_if (is_terminator ins.opcode && next_ok) (i + 1) set in
    let after_jump =
      insert_if (is_jump ins.opcode && not (is_neg ins.jump_target)) (pos_part ins.jump_target)
        after_end in
    leaders_from n (i + 1) rest
      (insert_if (is_conditional ins.opcode && next_ok) (i + 1) after_jump)

unfoldable pub find_leaders : List Instruction → List ℕ
find_leaders [] = []
find_leaders (ins ∷ rest) = leaders_from (length (ins ∷ rest)) 0 (ins ∷ rest) (insert 0 [])

abbrev pub last_of : List Instruction → Option Instruction
last_of [] = none
last_of (x ∷ []) = some x
last_of (x ∷ y ∷ xs) = last_of (y ∷ xs)

-- The terminator of a block without instructions is the default, RETURN, and its target -1.
abbrev pub opcode_of : Option Instruction → Opcode
opcode_of none = return
opcode_of (some ins) = ins.opcode

abbrev pub target_of : Option Instruction → ℤ
target_of none = negsuc 0
target_of (some ins) = ins.jump_target

unfoldable pub make_block : List Instruction → ℕ → ℕ → ℕ → BasicBlock
make_block insns id start stop =
    let body = take (stop - start) (drop start insns) in
    record {
      id = id;
      start_index = start;
      end_index = stop;
      instructions = body;
      terminator = opcode_of (last_of body);
      jump_target = target_of (last_of body);
      predecessors = [];
      successors = [];
    }

-- The first loop of `buildCFG`: one block for each leader.
unfoldable pub make_blocks : List Instruction → ℕ → List ℕ → List BasicBlock
make_blocks insns id [] = []
make_blocks insns id (l ∷ []) = make_block insns id l (length insns) ∷ []
make_blocks insns id (l ∷ m ∷ rest) =
    make_block insns id l m ∷ make_blocks insns (id + 1) (m ∷ rest)

abbrev pub update_at : ℕ → (BasicBlock → BasicBlock) → List BasicBlock → List BasicBlock
update_at i f [] = []
update_at zero f (b ∷ bs) = f b ∷ bs
update_at (suc i) f (b ∷ bs) = b ∷ update_at i f bs

unfoldable pub add_edge : ℕ → ℕ → List BasicBlock → List BasicBlock
add_edge from to bs =
    update_at to (λ b. record b { predecessors = b.predecessors ++ from ∷ [] })
      (update_at from (λ b. record b { successors = b.successors ++ to ∷ [] }) bs)

-- The block that starts at an instruction index: the first one, by its position.
unfoldable pub find_start : ℤ → ℕ → List BasicBlock → Option ℕ
find_start t i [] = none
find_start t i (b ∷ bs) = if eqb_ℤ (pos b.start_index) t then some i else find_start t (i + 1) bs

unfoldable pub resolve_target : ℕ → ℤ → List BasicBlock → List BasicBlock
resolve_target from t bs = elim (find_start t 0 bs) [
  | none ↦ bs
  | some to ↦ update_at from (λ b. record b { jump_target = pos to }) (add_edge from to bs)
]

unfoldable pub fall_through : ℕ → List BasicBlock → List BasicBlock
fall_through from bs = if ltb (from + 1) (length bs) then add_edge from (from + 1) bs else bs

-- The body of the loop over the blocks, at the block of id and index `i`.
unfoldable pub connect_at : ℕ → Option BasicBlock → List BasicBlock → List BasicBlock
connect_at i none bs = bs
connect_at i (some b) bs =
    if is_unconditional b.terminator
    then resolve_target i b.jump_target bs
    else if is_conditional b.terminator
    then resolve_target i b.jump_target (fall_through i bs)
    else if not (is_terminator b.terminator)
    then fall_through i bs
    else bs

unfoldable pub connect_from : ℕ → ℕ → List BasicBlock → List BasicBlock
connect_from zero i bs = bs
connect_from (suc left) i bs = connect_from left (i + 1) (connect_at i (get_elem? bs i) bs)

unfoldable pub build_cfg : List Instruction → List BasicBlock
build_cfg insns =
    let blocks = make_blocks insns 0 (find_leaders insns) in connect_from (length blocks) 0 blocks

-- The instructions in the blocks before an id.
unfoldable pub target_index : ℕ → List BasicBlock → ℕ
target_index zero bs = 0
target_index (suc k) [] = 0
target_index (suc k) (b ∷ bs) = length b.instructions + target_index k bs

-- The last instruction written is patched if it is a jump and its block has a target.
unfoldable pub patch : List BasicBlock → ℤ → Instruction → Instruction
patch bs t last =
    if is_jump last.opcode && (not (is_neg t) && ltb (pos_part t) (length bs))
    then record last { jump_target = pos (target_index (pos_part t) bs) }
    else last

unfoldable pub patch_last : List BasicBlock → ℤ → List Instruction → List Instruction
patch_last bs t [] = []
patch_last bs t (x ∷ []) = patch bs t x ∷ []
patch_last bs t (x ∷ y ∷ xs) = x ∷ patch_last bs t (y ∷ xs)

-- The loop of `linearize`, with the result written so far.
unfoldable pub linearize_from :
    List BasicBlock → List BasicBlock → List Instruction → List Instruction
linearize_from all [] result = result
linearize_from all (b ∷ bs) result =
    linearize_from all bs (patch_last all b.jump_target (result ++ b.instructions))

unfoldable pub linearize : List BasicBlock → List Instruction
linearize bs = linearize_from bs bs []
