-- ===== src/Cfg/Roundtrip.antt =====
-- The graph of a list of instructions, and `linearize` on it.
use mathlib.Core.Path.{subst}
use saqut.Prelude.{
  ℕ, zero, suc, ◌+◌, ◌-◌, ◌≡◌, refl, sym, ap, ◌∙◌, Bool, true, false, none, some, List, [], ◌∷◌,
  ◌++◌, append_assoc, append-nil, length, take, drop, some_inj, arith, All, ◌&&◌, not,
}
use saqut.Prelude.Int.{ℤ, pos, negsuc, is_neg, pos_part}
use saqut.Ir.{Instruction}
use saqut.Cfg.{
  BasicBlock, is_jump, last_of, make_block, make_blocks, find_start, patch, patch_last, build_cfg,
  linearize_from, linearize, find_leaders, connect_from,
}
use saqut.Cfg.Leaders.{jumps, InRange, IsLeaders, In, find_leaders-IsLeaders, find_leaders-jumps}
use saqut.Cfg.Slices.{bodies, make_blocks-bodies, find_start-target_index}
use saqut.Cfg.Edges.{LeadsHome, Raw, Progress, patch-neg}
use saqut.Cfg.Shape.{Shape, Shape-refl}
use saqut.Cfg.Loop.{Stage, connect_from-Stage}

All-take {κ} :
    (P : Instruction → Type κ) (n : ℕ) (xs : List Instruction) → All P xs → All P (take n xs)
All-take P zero xs h = tt
All-take P (suc n) [] h = tt
All-take P (suc n) (x ∷ xs) h = (h.0, All-take P n xs h.1)

All-drop {κ} :
    (P : Instruction → Type κ) (n : ℕ) (xs : List Instruction) → All P xs → All P (drop n xs)
All-drop P zero xs h = h
All-drop P (suc n) [] h = tt
All-drop P (suc n) (x ∷ xs) h = All-drop P n xs h.1

All-last_of :
    (all : List BasicBlock) (xs : List Instruction) (ins : Instruction)
    → All (LeadsHome all) xs
    → last_of xs ≡ some ins
    → LeadsHome all ins
All-last_of all [] ins h e = cc
All-last_of all (x ∷ []) ins h e = subst (LeadsHome all) (some_inj e) h.0
All-last_of all (x ∷ y ∷ xs) ins h e = All-last_of all (y ∷ xs) ins h.1 e

make_block-Raw :
    (all : List BasicBlock) (insns : List Instruction) (id l m : ℕ)
    → All (LeadsHome all) insns
    → Raw all (make_block insns id l m)
unfolding make_block
make_block-Raw all insns id l m h = record {
  term = refl;
  target = refl;
  home = λ ins last.
      All-last_of all _ ins
        (All-take (LeadsHome all) (m - l) _ (All-drop (LeadsHome all) l insns h)) last;
}

make_blocks-Progress :
    (all : List BasicBlock) (insns : List Instruction) (id : ℕ) (ls : List ℕ)
    → All (LeadsHome all) insns
    → Progress all zero (make_blocks insns id ls)
unfolding make_blocks
make_blocks-Progress all insns id [] h = tt
make_blocks-Progress all insns id (l ∷ []) h = (make_block-Raw all insns id l (length insns) h, tt)
make_blocks-Progress all insns id (l ∷ m ∷ rest) h =
    (make_block-Raw all insns id l m h, make_blocks-Progress all insns (id + 1) (m ∷ rest) h)

last_of-append :
    (xs : List Instruction) (y : Instruction) (ys : List Instruction)
    → last_of (xs ++ y ∷ ys) ≡ last_of (y ∷ ys)
last_of-append [] y ys = refl
last_of-append (x ∷ []) y ys = refl
last_of-append (x ∷ z ∷ xs) y ys = last_of-append (z ∷ xs) y ys

patch_last-same :
    (all : List BasicBlock) (t : ℤ) (xs : List Instruction)
    → ((ins : Instruction) → last_of xs ≡ some ins → patch all t ins ≡ ins)
    → patch_last all t xs ≡ xs
unfolding patch_last
patch_last-same all t [] h = refl
patch_last-same all t (x ∷ []) h = rw (h x refl) refl
patch_last-same all t (x ∷ y ∷ xs) h = rw (patch_last-same all t (y ∷ xs) h) refl

patch-Shape :
    (all all' : List BasicBlock) (t : ℤ) (ins : Instruction)
    → Shape all all'
    → patch all' t ins ≡ patch all t ins
unfolding patch
patch-Shape all all' t ins s = rw (s.count, s.sizes (pos_part t)) refl

unpatched_block :
    (all all' : List BasicBlock) (t : ℤ) (result body : List Instruction)
    → Shape all all'
    → ((ins : Instruction) → last_of body ≡ some ins → patch all t ins ≡ ins)
    → (last_of body ≡ none → is_neg t ≡ true)
    → patch_last all' t (result ++ body) ≡ result ++ body
unpatched_block all all' t result [] s u w =
    patch_last-same all' t (result ++ []) (λ ins last. patch-neg all' t ins (w refl))
unpatched_block all all' t result (y ∷ ys) s u w =
    patch_last-same all' t (result ++ y ∷ ys)
      (λ ins last. patch-Shape all all' t ins s ∙ u ins (sym (last_of-append result y ys) ∙ last))

-- Where every block is settled, the instructions of the blocks are written one after the other.
linearize_from-bodies :
    (all all' bs : List BasicBlock) (result : List Instruction)
    → Shape all all'
    → Progress all (length bs) bs
    → linearize_from all' bs result ≡ result ++ bodies bs
unfolding linearize_from
linearize_from-bodies all all' [] result s h = sym (append-nil result)
linearize_from-bodies all all' (b ∷ bs) result s h =
    ap (linearize_from all' bs)
      (unpatched_block all all' b.jump_target result b.instructions s h.0.unpatched h.0.without)
    ∙ linearize_from-bodies all all' bs (result ++ b.instructions) s h.1
    ∙ append_assoc result b.instructions (bodies bs)

&&-right : (a b : Bool) → (a && b) ≡ true → b ≡ true
&&-right true b h = h
&&-right false b h = cc

target_whole : (t : ℤ) → not (is_neg t) ≡ true → pos (pos_part t) ≡ t
target_whole (pos n) h = refl
target_whole (negsuc n) h = cc

zero-plus : (k : ℕ) → 0 + k ≡ k
zero-plus k = omega arith

-- Every jump leads to the block of the leader it names.
leader-LeadsHome :
    (insns : List Instruction) (ls : List ℕ) (ins : Instruction)
    → IsLeaders (length insns) ls
    → (jumps ins ≡ true → In (pos_part ins.jump_target) ls)
    → LeadsHome (make_blocks insns 0 ls) ins
leader-LeadsHome insns [] ins h i j = absurd h.starts
leader-LeadsHome insns (l ∷ rest) ins h i j =
    let (k, found, count) =
      find_start-target_index insns 0 l 0 (pos_part ins.jump_target) 0 rest h.ascends (i j) in
    (
      k,
      ap (λ t. find_start t 0 (make_blocks insns 0 (l ∷ rest)))
            (sym (target_whole ins.jump_target (&&-right (is_jump ins.opcode) _ j)))
          ∙ found
          ∙ ap some (zero-plus k),
      omega (arith, count, h.starts),
    )

All-leaders :
    (insns xs : List Instruction) (ls : List ℕ)
    → IsLeaders (length insns) ls
    → All (λ ins. jumps ins ≡ true → In (pos_part ins.jump_target) ls) xs
    → All (LeadsHome (make_blocks insns 0 ls)) xs
All-leaders insns [] ls h i = tt
All-leaders insns (x ∷ xs) ls h i =
    (leader-LeadsHome insns ls x h i.0, All-leaders insns xs ls h i.1)

-- The blocks of the leaders hold the whole list.
leaders-bodies :
    (insns : List Instruction) (ls : List ℕ)
    → IsLeaders (length insns) ls
    → bodies (make_blocks insns 0 ls) ≡ insns
leaders-bodies insns [] h = absurd h.starts
leaders-bodies insns (l ∷ rest) h =
    make_blocks-bodies insns 0 l 0 rest h.ascends ∙ ap (λ k. drop k insns) h.starts

connected :
    (insns : List Instruction) (ls : List ℕ)
    → IsLeaders (length insns) ls
    → All (λ ins. jumps ins ≡ true → In (pos_part ins.jump_target) ls) insns
    → Stage
        (make_blocks insns 0 ls)
        (length (make_blocks insns 0 ls))
        (connect_from (length (make_blocks insns 0 ls)) 0 (make_blocks insns 0 ls))
connected insns ls h i =
    let blocks = make_blocks insns 0 ls in
    connect_from-Stage blocks (length blocks) 0 blocks (zero-plus (length blocks)) (record {
      shape = Shape-refl blocks;
      progress = make_blocks-Progress blocks insns 0 ls (All-leaders insns insns ls h i);
    })

-- Where no jump leads past the end of a list, the list comes back from its control flow graph as
-- it was, every jump target included.
pub linearize-build_cfg :
    (insns : List Instruction) → InRange (length insns) insns → linearize (build_cfg insns) ≡ insns
unfolding linearize build_cfg make_blocks find_leaders connect_from linearize_from
linearize-build_cfg [] r = refl
linearize-build_cfg (ins ∷ rest) r =
    let insns = ins ∷ rest in
    let ls = find_leaders insns in
    let leaders = find_leaders-IsLeaders ins rest r in
    let blocks = make_blocks insns 0 ls in
    let done = connected insns ls leaders (find_leaders-jumps insns) in
    linearize_from-bodies blocks _ _ [] done.shape (
      subst (λ n. Progress blocks n (connect_from (length blocks) 0 blocks)) (sym done.shape.count)
        done.progress)
    ∙ done.shape.body
    ∙ leaders-bodies insns ls leaders
