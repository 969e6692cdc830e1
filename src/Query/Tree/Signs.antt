-- ===== src/Query/Tree/Signs.antt =====
-- `strip_double_negation` keeps the sign of a node, and what is behind it.
use php_sdsearch.Prelude.{ℕ, ◌≡◌, refl, ◌∙◌, List, Bool, true, false, not}
use php_sdsearch.Query.Tree.{
  BoolNode, and_node, or_node, not_node, term_node, strip_double_negation,
}
use php_sdsearch.Query.Tree.Meaning.{negative, base, matches}

-- At most one negation in front.
abbrev pub single : BoolNode → Bool
single (not_node x) = not (negative x)
single n = true

pub single-strip : (n : BoolNode) → single (strip_double_negation n) ≡ true
unfolding strip_double_negation negative
single-strip (not_node (not_node x)) = single-strip x
single-strip (not_node (and_node children)) = refl
single-strip (not_node (or_node children)) = refl
single-strip (not_node (term_node s)) = refl
single-strip (and_node children) = refl
single-strip (or_node children) = refl
single-strip (term_node s) = refl

pub negative-strip : (n : BoolNode) → negative (strip_double_negation n) ≡ negative n
unfolding strip_double_negation negative
negative-strip (not_node (not_node x)) = negative-strip x ∙ twice (negative x)
  where
    twice : (b : Bool) → b ≡ not (not b)
    twice true = refl
    twice false = refl
negative-strip (not_node (and_node children)) = refl
negative-strip (not_node (or_node children)) = refl
negative-strip (not_node (term_node s)) = refl
negative-strip (and_node children) = refl
negative-strip (or_node children) = refl
negative-strip (term_node s) = refl

module _ (holds : List ℕ → Bool) where
  pub base-strip : (n : BoolNode) → base holds (strip_double_negation n) ≡ base holds n
  unfolding strip_double_negation base
  base-strip (not_node (not_node x)) = base-strip x
  base-strip (not_node (and_node children)) = refl
  base-strip (not_node (or_node children)) = refl
  base-strip (not_node (term_node s)) = refl
  base-strip (and_node children) = refl
  base-strip (or_node children) = refl
  base-strip (term_node s) = refl

  pub matches-strip : (n : BoolNode) → matches holds (strip_double_negation n) ≡ matches holds n
  unfolding matches
  matches-strip n = rw (negative-strip n, base-strip n) refl
