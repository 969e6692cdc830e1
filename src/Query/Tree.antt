-- ===== src/Query/Tree.antt =====
-- sdsearch-core/src/query.rs: Boolean expression trees, and the query that a tree stands for.
pub mod Meaning
pub mod Signs
pub mod Value
pub mod Classical
pub mod Depth
use php_sdsearch.Prelude.{
  ℕ, zero, suc, ◌+◌, ◌-◌, List, [], ◌∷◌, Option, none, some, Bool, true, false,
}
use php_sdsearch.Analysis.{Text, analyze}
use php_sdsearch.Query
use php_sdsearch.Query.Boolean.{Occur, should, must, must_not}

pub data QueryError : Type 0 where
  empty_field tree_too_deep : QueryError

-- `Result<_, QueryError>`
pub data Checked {ℓ} (A : Type ℓ) : Type ℓ where
  accepted : A → Checked A
  rejected : QueryError → Checked A

-- What is accepted satisfies `P`.
abbrev pub When {ℓ} : {A : Type ℓ} → (A → Type 0) → Checked A → Type 0
When P (accepted a) = P a
When P (rejected e) = Unit

mutual
  pub data BoolNode : Type 0 where
    and_node : BoolNodes → BoolNode
    or_node : BoolNodes → BoolNode
    not_node : BoolNode → BoolNode
    term_node : List ℕ → BoolNode

  -- `Vec<BoolNode>`
  pub data BoolNodes : Type 0 where
    no_nodes : BoolNodes
    node : BoolNode → BoolNodes → BoolNodes

abbrev pub max_tree_depth : ℕ
max_tree_depth = 32

unfoldable pub strip_double_negation : BoolNode → BoolNode
strip_double_negation (not_node (not_node x)) = strip_double_negation x
strip_double_negation (not_node (and_node children)) = not_node (and_node children)
strip_double_negation (not_node (or_node children)) = not_node (or_node children)
strip_double_negation (not_node (term_node s)) = not_node (term_node s)
strip_double_negation (and_node children) = and_node children
strip_double_negation (or_node children) = or_node children
strip_double_negation (term_node s) = term_node s

module _ {F : Type 0} where
  -- What `?` and `push` do with a clause.
  abbrev pub with_clause :
      Occur → Checked (Query.Query F) → Checked (Query.Clauses F) → Checked (Query.Clauses F)
  with_clause o (rejected e) rest = rejected e
  with_clause o (accepted q) (rejected e) = rejected e
  with_clause o (accepted q) (accepted clauses) = accepted (Query.clause o q clauses)

  abbrev pub boolean_of : Checked (Query.Clauses F) → Checked (Query.Query F)
  boolean_of (rejected e) = rejected e
  boolean_of (accepted clauses) = accepted (Query.boolean clauses)

  -- The loops over the children, with what maps a child.
  module _ (child : BoolNode → Checked (Query.Query F)) where
    -- A child of an `and`, as `strip_double_negation` leaves it.
    abbrev pub and_clause : BoolNode → Checked (Query.Clauses F) → Checked (Query.Clauses F)
    and_clause (not_node inner) rest = with_clause must_not (child inner) rest
    and_clause (and_node children) rest = with_clause must (child (and_node children)) rest
    and_clause (or_node children) rest = with_clause must (child (or_node children)) rest
    and_clause (term_node s) rest = with_clause must (child (term_node s)) rest

    unfoldable pub and_clauses : BoolNodes → Checked (Query.Clauses F)
    unfolding strip_double_negation
    and_clauses no_nodes = accepted Query.no_clauses
    and_clauses (node c children) = and_clause (strip_double_negation c) (and_clauses children)

    unfoldable pub or_clauses : BoolNodes → Checked (Query.Clauses F)
    or_clauses no_nodes = accepted Query.no_clauses
    or_clauses (node c children) = with_clause should (child c) (or_clauses children)

  module _ (text : Text) (accent_insensitive : Bool) where
    -- A node that is stripped, with what maps the nodes one level below.
    abbrev pub map_stripped :
        (BoolNode → Checked (Query.Query F)) → BoolNode → Checked (Query.Query F)
    map_stripped child (term_node phrase) =
        accepted (Query.phrase none (analyze text phrase) accent_insensitive)
    map_stripped child (not_node inner) =
        boolean_of (with_clause must_not (child inner) (accepted Query.no_clauses))
    map_stripped child (and_node children) = boolean_of (and_clauses child children)
    map_stripped child (or_node children) = boolean_of (or_clauses child children)

    -- The depth is kept as the levels that are left, `MAX_TREE_DEPTH + 1 - depth`.
    unfoldable pub map_within : ℕ → BoolNode → Checked (Query.Query F)
    unfolding and_clauses or_clauses
    map_within zero n = rejected tree_too_deep
    map_within (suc left) n = map_stripped (map_within left) (strip_double_negation n)

    unfoldable pub map_bool_node : BoolNode → ℕ → Checked (Query.Query F)
    unfolding map_within
    map_bool_node n depth = map_within (max_tree_depth + 1 - depth) n
