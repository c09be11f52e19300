-- ===== src/Cfg/Loop.antt =====
-- The loop of `buildCFG` over the blocks, one after the other.
use mathlib.Core.Path.{subst}
use saqut.Prelude.{
  ℕ, zero, suc, ◌+◌, ◌≤◌, ◌≡◌, refl, sym, ap, ◌∙◌, true, false, not, none, some, List, [], ◌∷◌, ltb,
  if_split, length, get_elem?, Option-cases, inl, inr, arith,
}
use saqut.Prelude.Int.{is_neg}
use saqut.Cfg.{
  BasicBlock, is_jump, is_conditional, is_unconditional, is_terminator, opcode_of, target_of,
  last_of, add_edge, find_start, resolve_target, fall_through, connect_at, connect_from, patch,
}
use saqut.Cfg.Edges.{
  Progress, At, Spares, Progress-update, At-update, Progress-settle, Progress-suc, At-get_elem?,
  jump-Settled, open-Settled, other-Settled,
}
use saqut.Cfg.Shape.{Shape, Shape-trans, add_edge-Shape, resolve_target-Shape}

-- An update of the edges of a block.
record Core (b b' : BasicBlock) : Type 0 where
  same_body : b'.instructions ≡ b.instructions
  same_term : b'.terminator ≡ b.terminator
  same_target : b'.jump_target ≡ b.jump_target

edge-Spares :
    (all : List BasicBlock) (g : BasicBlock → BasicBlock)
    → ((b : BasicBlock) → Core b (g b))
    → Spares all g
edge-Spares all g c = record {
  raw = λ b r. record {
    term = (c b).same_term ∙ r.term ∙ ap (λ xs. opcode_of (last_of xs)) (sym (c b).same_body);
    target = (c b).same_target ∙ r.target ∙ ap (λ xs. target_of (last_of xs)) (sym (c b).same_body);
    home = λ ins last. r.home ins (ap last_of (sym (c b).same_body) ∙ last);
  };
  settled = λ b s. record {
    unpatched = λ ins last.
        ap (λ t. patch all t ins) (c b).same_target
        ∙ s.unpatched ins (ap last_of (sym (c b).same_body) ∙ last);
    without =
        λ last. ap is_neg (c b).same_target ∙ s.without (ap last_of (sym (c b).same_body) ∙ last);
  };
}

-- What a block of the index `i` is when the loop comes to it.
abbrev Waits : BasicBlock → BasicBlock → Type 0
Waits b x = (x.terminator ≡ b.terminator) × (x.jump_target ≡ b.jump_target)

-- The loop's state: the blocks differ from the first ones in their edges, and the first `i` are settled.
pub record Stage (all : List BasicBlock) (i : ℕ) (bs : List BasicBlock) : Type 0 where
  pub shape : Shape all bs
  pub progress : Progress all i bs

edged :
    (all : List BasicBlock) (b : BasicBlock) (from to i k : ℕ) (bs : List BasicBlock)
    → Stage all i bs × At (Waits b) k bs
    → Stage all i (add_edge from to bs) × At (Waits b) k (add_edge from to bs)
unfolding add_edge
edged all b from to i k bs (s, w) = (
  record {
    shape = Shape-trans s.shape (add_edge-Shape from to bs);
    progress =
        Progress-update all _ i to _
          (edge-Spares all _
            (λ x. record { same_body = refl; same_term = refl; same_target = refl }))
          (Progress-update all _ i from bs
            (edge-Spares all _
              (λ x. record { same_body = refl; same_term = refl; same_target = refl }))
            s.progress);
  },
  At-update (Waits b) _ k to _ (λ x h. h) (At-update (Waits b) _ k from bs (λ x h. h) w),
)

fallen :
    (all : List BasicBlock) (b : BasicBlock) (from i k : ℕ) (bs : List BasicBlock)
    → Stage all i bs × At (Waits b) k bs
    → Stage all i (fall_through from bs) × At (Waits b) k (fall_through from bs)
unfolding fall_through
fallen all b from i k bs h =
    if_split (λ (ys : List BasicBlock). Stage all i ys × At (Waits b) k ys)
      (ltb (from + 1) (length bs)) (λ _. edged all b from (from + 1) i k bs h) (λ _. h)

-- Resolving the target of a block settles it.
resolved :
    (all : List BasicBlock) (b : BasicBlock) (i : ℕ) (bs : List BasicBlock)
    → is_jump b.terminator ≡ true
    → Stage all i bs
    → At (Waits b) i bs
    → Stage all (suc i) (resolve_target i b.jump_target bs)
unfolding resolve_target
resolved all b i bs j s w = record {
  shape = Shape-trans s.shape (resolve_target-Shape i b.jump_target bs);
  progress = elim (Option-cases (find_start b.jump_target 0 bs)) [
    | inl e ↦
        rw (resolve_target, e)
          (Progress-suc all (Waits b) i bs
            (λ x r p.
              open-Settled all x r (ap is_jump p.0 ∙ j)
                (ap (λ t. find_start t 0 all) p.1 ∙ sym (s.shape.found b.jump_target 0) ∙ e))
            w s.progress)
    | inr (to, e) ↦
        let (s', w') = edged all b i to i i bs (s, w) in
        rw (resolve_target, e)
          (Progress-settle all (Waits b) _ i (add_edge i to bs)
            (λ x r p.
              jump-Settled all x r to (ap is_jump p.0 ∙ j)
                (ap (λ t. find_start t 0 all) p.1 ∙ sym (s.shape.found b.jump_target 0) ∙ e))
            w' s'.progress)
  ];
}

passed :
    (all : List BasicBlock) (b : BasicBlock) (i : ℕ) (bs : List BasicBlock)
    → is_jump b.terminator ≡ false
    → Stage all i bs × At (Waits b) i bs
    → Stage all (suc i) bs
passed all b i bs j (s, w) = record {
  shape = s.shape;
  progress =
      Progress-suc all (Waits b) i bs (λ x r p. other-Settled all x r (ap is_jump p.0 ∙ j)) w
        s.progress;
}

connect_at-Stage :
    (all : List BasicBlock) (b : BasicBlock) (i : ℕ) (bs : List BasicBlock)
    → Stage all i bs
    → At (Waits b) i bs
    → Stage all (suc i) (connect_at i (some b) bs)
unfolding connect_at
connect_at-Stage all b i bs s w =
    if_split (Stage all (suc i)) (is_unconditional b.terminator)
      (λ u. resolved all b i bs (rw u refl) s w)
      (λ u.
        if_split (Stage all (suc i)) (is_conditional b.terminator)
          (λ c.
            let (s', w') = fallen all b i i i bs (s, w) in
            resolved all b i _ (rw (u, c) refl) s' w')
          (λ c.
            if_split (Stage all (suc i)) (not (is_terminator b.terminator))
              (λ _. passed all b i _ (rw (u, c) refl) (fallen all b i i i bs (s, w)))
              (λ _. passed all b i bs (rw (u, c) refl) (s, w))))

get_elem?-none {ℓ} : {A : Type ℓ} (xs : List A) (i : ℕ) → get_elem? xs i ≡ none → length xs ≤ i
get_elem?-none [] i e = omega arith
get_elem?-none (x ∷ xs) zero e = cc
get_elem?-none (x ∷ xs) (suc i) e = omega (arith, get_elem?-none xs i e)

next : (i : ℕ) → suc i ≡ i + 1
next i = omega arith

pub connect_from-Stage :
    (all : List BasicBlock) (left i : ℕ) (bs : List BasicBlock)
    → i + left ≡ length all
    → Stage all i bs
    → Stage all (length all) (connect_from left i bs)
unfolding connect_from
connect_from-Stage all zero i bs e s = subst (λ k. Stage all k bs) (omega (arith, e)) s
connect_from-Stage all (suc left) i bs e s =
    connect_from-Stage all left (i + 1) _ (omega (arith, e)) (
      subst (λ k. Stage all k (connect_at i (get_elem? bs i) bs)) (next i)
        (elim (Option-cases (get_elem? bs i)) [
          | inl n ↦ absurd (omega (arith, get_elem?-none bs i n, s.shape.count, e))
          | inr (b, f) ↦
              rw f (connect_at-Stage all b i bs s (At-get_elem? (Waits b) i b bs f (refl, refl)))
        ]))
