-- ===== src/Query/Tree/Meaning.antt =====
-- What a tree means for one document, whose phrases are known to be there or not.
use php_sdsearch.Prelude.{ℕ, List, Bool, true, false, not, ◌&&◌, ◌||◌, if◌then◌else◌}
use php_sdsearch.Query.Tree.{
  BoolNode, BoolNodes, and_node, or_node, not_node, term_node, no_nodes, node,
}

-- An odd number of negations in front.
unfoldable pub negative : BoolNode → Bool
negative (not_node x) = not (negative x)
negative (and_node children) = false
negative (or_node children) = false
negative (term_node s) = false

unfoldable pub any_positive : BoolNodes → Bool
unfolding negative
any_positive no_nodes = false
any_positive (node c children) = not (negative c) || any_positive children

module _ (holds : List ℕ → Bool) where
  unfoldable mutual
    unfolding negative any_positive

    -- The node behind the negations. An `and` asks for a child that is not negated; an `or` passes
    -- over the children that are.
    pub base : BoolNode → Bool
    base (term_node s) = holds s
    base (not_node x) = base x
    base (and_node children) = any_positive children && each children
    base (or_node children) = some_one children

    pub each : BoolNodes → Bool
    each no_nodes = true
    each (node c children) = (if negative c then not (base c) else base c) && each children

    pub some_one : BoolNodes → Bool
    some_one no_nodes = false
    some_one (node c children) = (not (negative c) && base c) || some_one children

  -- A node that is negated, and has nothing to be taken from, holds of no document.
  unfoldable pub matches : BoolNode → Bool
  unfolding base
  matches n = not (negative n) && base n
