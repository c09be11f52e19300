-- ===== src/Cfg/Edges.antt =====
-- What a step of the loop over the edges does to the target of a block.
use mathlib.Core.Path.{subst}
use saqut.Prelude.{
  ℕ, zero, suc, ◌+◌, ◌≡◌, ◌≢◌, refl, sym, ap, ◌∙◌, true, false, not, ◌&&◌, none, some, List, [],
  ◌∷◌, ltb, if_split, length, get_elem?, Bool-cases, inl, inr, arith, some_inj,
}
use saqut.Prelude.Int.{ℤ, pos, negsuc, is_neg, pos_part}
use saqut.Ir.{return, Instruction}
use saqut.Cfg.{
  BasicBlock, is_jump, opcode_of, target_of, last_of, update_at, find_start, target_index, patch,
}
use saqut.Cfg.Leaders.{jumps}

-- The target of a jump is the start of a block, and the instructions before that block are as many.
abbrev pub LeadsHome : List BasicBlock → Instruction → Type 0
LeadsHome all ins =
    jumps ins ≡ true
    → (k : ℕ) × (find_start ins.jump_target 0 all ≡ some k)
      × (target_index k all ≡ pos_part ins.jump_target)

-- A block as the first loop makes it.
pub record Raw (all : List BasicBlock) (b : BasicBlock) : Type 0 where
  pub term : b.terminator ≡ opcode_of (last_of b.instructions)
  pub target : b.jump_target ≡ target_of (last_of b.instructions)
  pub home : (ins : Instruction) → last_of b.instructions ≡ some ins → LeadsHome all ins

-- A block that `linearize` writes unchanged.
pub record Settled (all : List BasicBlock) (b : BasicBlock) : Type 0 where
  pub unpatched :
      (ins : Instruction) → last_of b.instructions ≡ some ins → patch all b.jump_target ins ≡ ins
  pub without : last_of b.instructions ≡ none → is_neg b.jump_target ≡ true

-- The blocks before an index are settled, and the ones from it on are raw.
abbrev pub Progress : List BasicBlock → ℕ → List BasicBlock → Type 0
Progress all i [] = Unit
Progress all zero (b ∷ bs) = Raw all b × Progress all zero bs
Progress all (suc i) (b ∷ bs) = Settled all b × Progress all i bs

abbrev pub At : (BasicBlock → Type 0) → ℕ → List BasicBlock → Type 0
At P i [] = ⊥
At P zero (b ∷ bs) = P b
At P (suc i) (b ∷ bs) = At P i bs

-- What an update of the edges leaves alone.
pub record Spares (all : List BasicBlock) (f : BasicBlock → BasicBlock) : Type 0 where
  pub raw : (b : BasicBlock) → Raw all b → Raw all (f b)
  pub settled : (b : BasicBlock) → Settled all b → Settled all (f b)

pub Progress-update :
    (all : List BasicBlock) (f : BasicBlock → BasicBlock) (i j : ℕ) (bs : List BasicBlock)
    → Spares all f
    → Progress all i bs
    → Progress all i (update_at j f bs)
Progress-update all f i j [] s h = h
Progress-update all f zero zero (b ∷ bs) s h = (s.raw b h.0, h.1)
Progress-update all f (suc i) zero (b ∷ bs) s h = (s.settled b h.0, h.1)
Progress-update all f zero (suc j) (b ∷ bs) s h = (h.0, Progress-update all f zero j bs s h.1)
Progress-update all f (suc i) (suc j) (b ∷ bs) s h = (h.0, Progress-update all f i j bs s h.1)

pub At-update :
    (P : BasicBlock → Type 0) (f : BasicBlock → BasicBlock) (i j : ℕ) (bs : List BasicBlock)
    → ((b : BasicBlock) → P b → P (f b))
    → At P i bs
    → At P i (update_at j f bs)
At-update P f i j [] s h = absurd h
At-update P f zero zero (b ∷ bs) s h = s b h
At-update P f (suc i) zero (b ∷ bs) s h = h
At-update P f zero (suc j) (b ∷ bs) s h = h
At-update P f (suc i) (suc j) (b ∷ bs) s h = At-update P f i j bs s h

pub Progress-settle :
    (all : List BasicBlock) (P : BasicBlock → Type 0) (f : BasicBlock → BasicBlock) (i : ℕ)
    (bs : List BasicBlock)
    → ((b : BasicBlock) → Raw all b → P b → Settled all (f b))
    → At P i bs
    → Progress all i bs
    → Progress all (suc i) (update_at i f bs)
Progress-settle all P f i [] s p h = absurd p
Progress-settle all P f zero (b ∷ bs) s p h = (s b h.0 p, h.1)
Progress-settle all P f (suc i) (b ∷ bs) s p h = (h.0, Progress-settle all P f i bs s p h.1)

pub Progress-suc :
    (all : List BasicBlock) (P : BasicBlock → Type 0) (i : ℕ) (bs : List BasicBlock)
    → ((b : BasicBlock) → Raw all b → P b → Settled all b)
    → At P i bs
    → Progress all i bs
    → Progress all (suc i) bs
Progress-suc all P i [] s p h = absurd p
Progress-suc all P zero (b ∷ bs) s p h = (s b h.0 p, h.1)
Progress-suc all P (suc i) (b ∷ bs) s p h = (h.0, Progress-suc all P i bs s p h.1)

pub At-get_elem? :
    (P : BasicBlock → Type 0) (i : ℕ) (b : BasicBlock) (bs : List BasicBlock)
    → get_elem? bs i ≡ some b
    → P b
    → At P i bs
At-get_elem? P i b [] e p = cc
At-get_elem? P zero b (x ∷ bs) e p = subst P (sym (some_inj e)) p
At-get_elem? P (suc i) b (x ∷ bs) e p = At-get_elem? P i b bs e p

find_start-neg : (t : ℤ) (i : ℕ) (bs : List BasicBlock) → is_neg t ≡ true → find_start t i bs ≡ none
unfolding find_start
find_start-neg t i [] h = refl
find_start-neg t i (b ∷ bs) h = ground (arith, find_start-neg t (i + 1) bs h)

patch-same :
    (all : List BasicBlock) (t : ℤ) (ins : Instruction)
    → pos (target_index (pos_part t) all) ≡ ins.jump_target
    → patch all t ins ≡ ins
unfolding patch
patch-same all t ins e =
    if_split (λ (x : Instruction). x ≡ ins)
      (is_jump ins.opcode && (not (is_neg t) && ltb (pos_part t) (length all)))
      (λ _. ap (λ (z : ℤ). record ins { jump_target = z }) e) (λ _. refl)

pub patch-neg :
    (all : List BasicBlock) (t : ℤ) (ins : Instruction) → is_neg t ≡ true → patch all t ins ≡ ins
unfolding patch
patch-neg all t ins n = ground (arith, n)

patch-no_jump :
    (all : List BasicBlock) (t : ℤ) (ins : Instruction)
    → is_jump ins.opcode ≡ false
    → patch all t ins ≡ ins
unfolding patch
patch-no_jump all t ins n = rw n refl

whole : (t : ℤ) → is_neg t ≡ false → pos (pos_part t) ≡ t
whole (pos n) h = refl
whole (negsuc n) h = cc

module _ (all : List BasicBlock) (b : BasicBlock) (r : Raw all b) where
  last_opcode : (ins : Instruction) → last_of b.instructions ≡ some ins → b.terminator ≡ ins.opcode
  last_opcode ins last = r.term ∙ ap opcode_of last

  last_target :
      (ins : Instruction) → last_of b.instructions ≡ some ins → b.jump_target ≡ ins.jump_target
  last_target ins last = r.target ∙ ap target_of last

  not_empty : is_jump b.terminator ≡ true → last_of b.instructions ≢ none
  not_empty j last =
      let e : b.terminator ≡ return = r.term ∙ ap opcode_of last in
      let k : is_jump return ≡ true = sym (ap is_jump e) ∙ j in cc k

  home_of :
      (ins : Instruction)
      → last_of b.instructions ≡ some ins
      → is_jump b.terminator ≡ true
      → is_neg ins.jump_target ≡ false
      → (k : ℕ) × (find_start b.jump_target 0 all ≡ some k)
        × (pos (target_index k all) ≡ ins.jump_target)
  home_of ins last j n =
      let op : is_jump ins.opcode ≡ true = sym (ap is_jump (last_opcode ins last)) ∙ j in
      let (k, found, count) = r.home ins last (rw (op, n) refl) in
      (
        k,
        ap (λ t. find_start t 0 all) (last_target ins last) ∙ found,
        ap pos count ∙ whole ins.jump_target n,
      )

  -- A jump whose target is found.
  pub jump-Settled :
      (to : ℕ)
      → is_jump b.terminator ≡ true
      → find_start b.jump_target 0 all ≡ some to
      → Settled all (record b { jump_target = pos to })
  jump-Settled to j f = record {
    unpatched = λ ins last. elim (Bool-cases (is_neg ins.jump_target)) [
      | inl n ↦
          let gone = find_start-neg ins.jump_target 0 all n in
          let kept = ap (λ t. find_start t 0 all) (sym (last_target ins last)) in
          absurd (cc (gone, kept, f))
      | inr n ↦
          let (k, found, count) = home_of ins last j n in
          let same : k ≡ to = some_inj (sym found ∙ f) in
          patch-same all (pos to) ins (ap (λ m. pos (target_index m all)) (sym same) ∙ count)
    ];
    without = λ last. absurd (not_empty j last);
  }

  -- A jump whose target is not found has none.
  pub open-Settled :
      is_jump b.terminator ≡ true → find_start b.jump_target 0 all ≡ none → Settled all b
  open-Settled j f = record {
    unpatched = λ ins last. elim (Bool-cases (is_neg ins.jump_target)) [
      | inl n ↦ patch-neg all b.jump_target ins (ap is_neg (last_target ins last) ∙ n)
      | inr n ↦ let (k, found, count) = home_of ins last j n in absurd (cc (found, f))
    ];
    without = λ last. absurd (not_empty j last);
  }

  pub other-Settled : is_jump b.terminator ≡ false → Settled all b
  other-Settled j = record {
    unpatched = λ ins last.
        patch-no_jump all b.jump_target ins (sym (ap is_jump (last_opcode ins last)) ∙ j);
    without = λ last. ap is_neg (r.target ∙ ap target_of last);
  }
