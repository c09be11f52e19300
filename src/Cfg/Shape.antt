-- ===== src/Cfg/Shape.antt =====
-- What the loop over the edges leaves of the blocks.
use saqut.Prelude.{
  ℕ, zero, suc, ◌+◌, ◌≡◌, refl, ap, ◌∙◌, List, [], ◌∷◌, ltb, if_split, length, Option-cases, inl,
  inr,
}
use saqut.Prelude.Int.{ℤ}
use saqut.Cfg.{
  BasicBlock, update_at, add_edge, find_start, resolve_target, fall_through, target_index,
}
use saqut.Cfg.Slices.{bodies}

-- Two lists of blocks that differ in their edges only.
pub record Shape (bs bs' : List BasicBlock) : Type 0 where
  pub found : (t : ℤ) (i : ℕ) → find_start t i bs' ≡ find_start t i bs
  pub sizes : (k : ℕ) → target_index k bs' ≡ target_index k bs
  pub count : length bs' ≡ length bs
  pub body : bodies bs' ≡ bodies bs

pub Shape-refl : (bs : List BasicBlock) → Shape bs bs
Shape-refl bs = record { found = λ t i. refl; sizes = λ k. refl; count = refl; body = refl }

pub Shape-trans : {a b c : List BasicBlock} → Shape a b → Shape b c → Shape a c
Shape-trans h k = record {
  found = λ t i. k.found t i ∙ h.found t i;
  sizes = λ n. k.sizes n ∙ h.sizes n;
  count = k.count ∙ h.count;
  body = k.body ∙ h.body;
}

module _ (f : BasicBlock → BasicBlock)
    (same_start : (b : BasicBlock) → (f b).start_index ≡ b.start_index)
    (same_body : (b : BasicBlock) → (f b).instructions ≡ b.instructions) where
  update-found :
      (j : ℕ) (bs : List BasicBlock) (t : ℤ) (i : ℕ)
      → find_start t i (update_at j f bs) ≡ find_start t i bs
  unfolding find_start
  update-found j [] t i = refl
  update-found zero (b ∷ bs) t i = rw (same_start b) refl
  update-found (suc j) (b ∷ bs) t i = rw (update-found j bs t (i + 1)) refl

  update-sizes :
      (j : ℕ) (bs : List BasicBlock) (k : ℕ) → target_index k (update_at j f bs) ≡ target_index k bs
  unfolding target_index
  update-sizes j bs zero = refl
  update-sizes j [] (suc k) = refl
  update-sizes zero (b ∷ bs) (suc k) = rw (same_body b) refl
  update-sizes (suc j) (b ∷ bs) (suc k) = rw (update-sizes j bs k) refl

  update-count : (j : ℕ) (bs : List BasicBlock) → length (update_at j f bs) ≡ length bs
  update-count j [] = refl
  update-count zero (b ∷ bs) = refl
  update-count (suc j) (b ∷ bs) = ap suc (update-count j bs)

  update-body : (j : ℕ) (bs : List BasicBlock) → bodies (update_at j f bs) ≡ bodies bs
  update-body j [] = refl
  update-body zero (b ∷ bs) = rw (same_body b) refl
  update-body (suc j) (b ∷ bs) = rw (update-body j bs) refl

  update-Shape : (j : ℕ) (bs : List BasicBlock) → Shape bs (update_at j f bs)
  update-Shape j bs = record {
    found = update-found j bs;
    sizes = update-sizes j bs;
    count = update-count j bs;
    body = update-body j bs;
  }

pub add_edge-Shape : (from to : ℕ) (bs : List BasicBlock) → Shape bs (add_edge from to bs)
unfolding add_edge
add_edge-Shape from to bs =
    Shape-trans (update-Shape _ (λ b. refl) (λ b. refl) from bs)
      (update-Shape _ (λ b. refl) (λ b. refl) to _)

pub fall_through-Shape : (from : ℕ) (bs : List BasicBlock) → Shape bs (fall_through from bs)
unfolding fall_through
fall_through-Shape from bs =
    if_split (Shape bs) (ltb (from + 1) (length bs)) (λ _. add_edge-Shape from (from + 1) bs)
      (λ _. Shape-refl bs)

pub resolve_target-Shape :
    (from : ℕ) (t : ℤ) (bs : List BasicBlock) → Shape bs (resolve_target from t bs)
unfolding resolve_target
resolve_target-Shape from t bs = elim (Option-cases (find_start t 0 bs)) [
  | inl e ↦ rw (resolve_target, e) (Shape-refl bs)
  | inr (to, e) ↦
      rw (resolve_target, e)
        (Shape-trans (add_edge-Shape from to bs)
          (update-Shape _ (λ b. refl) (λ b. refl) from (add_edge from to bs)))
]
