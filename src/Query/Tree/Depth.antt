-- ===== src/Query/Tree/Depth.antt =====
-- Which trees are too deep.
use php_sdsearch.Prelude.{
  ℕ, zero, suc, ◌+◌, ◌-◌, ◌≤◌, ◌≡◌, refl, sym, ap, ◌∙◌, arith, Option, none, some, Bool, true,
  false, not, ◌&&◌, leb,
}
use php_sdsearch.Prelude.{if◌then◌else◌, Bool-cases, inl, inr}
use php_sdsearch.Analysis.{Text}
use php_sdsearch.Query
use php_sdsearch.Query.Boolean.{Occur, should, must, must_not}
use php_sdsearch.Query.Tree.{
  QueryError, tree_too_deep, Checked, accepted, rejected, BoolNode, BoolNodes, and_node, or_node,
  not_node, term_node, no_nodes, node, max_tree_depth, strip_double_negation, with_clause,
  boolean_of, and_clause, and_clauses, or_clauses, map_stripped, map_within, map_bool_node,
}
use php_sdsearch.Query.Tree.Meaning.{negative}
use php_sdsearch.Query.Tree.Signs.{single, single-strip, negative-strip}
use Prim.Native.Nat.{max}

unfoldable mutual
  unfolding negative

  -- The levels of a tree behind the negations in front.
  pub base_levels : BoolNode → ℕ
  base_levels (term_node s) = 1
  base_levels (not_node x) = base_levels x
  base_levels (and_node children) = suc (and_levels children)
  base_levels (or_node children) = suc (or_levels children)

  -- The negation of a child of an `and` is no level.
  pub and_levels : BoolNodes → ℕ
  and_levels no_nodes = 0
  and_levels (node c children) = max (base_levels c) (and_levels children)

  pub or_levels : BoolNodes → ℕ
  or_levels no_nodes = 0
  or_levels (node c children) =
      max (if negative c then suc (base_levels c) else base_levels c) (or_levels children)

-- An odd number of negations is one level.
abbrev pub levels : BoolNode → ℕ
levels n = if negative n then suc (base_levels n) else base_levels n

base_levels-strip : (n : BoolNode) → base_levels (strip_double_negation n) ≡ base_levels n
unfolding strip_double_negation base_levels
base_levels-strip (not_node (not_node x)) = base_levels-strip x
base_levels-strip (not_node (and_node children)) = refl
base_levels-strip (not_node (or_node children)) = refl
base_levels-strip (not_node (term_node s)) = refl
base_levels-strip (and_node children) = refl
base_levels-strip (or_node children) = refl
base_levels-strip (term_node s) = refl

base_levels_positive : (n : BoolNode) → 1 ≤ base_levels n
unfolding base_levels
base_levels_positive (term_node s) = ground arith
base_levels_positive (not_node x) = base_levels_positive x
base_levels_positive (and_node children) = ground arith
base_levels_positive (or_node children) = ground arith

-- The error, if there is one.
abbrev pub failure : {A : Type 0} → Checked A → Option QueryError
failure (accepted a) = none
failure (rejected e) = some e

abbrev pub too_deep_unless : Bool → Option QueryError
too_deep_unless b = if b then none else some tree_too_deep

levels_positive : (n : BoolNode) → 1 ≤ levels n
levels_positive n =
    let one = base_levels_positive n in
    elim (Bool-cases (negative n)) [ inl y ↦ rw y (ground arith) | inr m ↦ rw m one ]

none_at_zero : (k : ℕ) → 1 ≤ k → false ≡ leb k 0
none_at_zero k h = ground arith

left_below :
    (k depth : ℕ)
    → 1 ≤ k
    → leb k (max_tree_depth + 1 - depth) ≡ leb (k + depth) (max_tree_depth + 1)
left_below k depth h = ground arith

leb_max : (a b n : ℕ) → leb (max a b) n ≡ (leb a n && leb b n)
leb_max a b n = ground arith

leb-suc : (a n : ℕ) → leb a n ≡ leb (suc a) (suc n)
leb-suc a n = ground arith

module _ {F : Type 0} where
  failure-with_clause :
      (o : Occur) (c : Checked (Query.Query F)) (rest : Checked (Query.Clauses F)) (a b : Bool)
      → failure c ≡ too_deep_unless a
      → failure rest ≡ too_deep_unless b
      → failure (with_clause o c rest) ≡ too_deep_unless (a && b)
  failure-with_clause o (accepted q) rest true b h k = go rest k
    where
      go :
          (rest : Checked (Query.Clauses F))
          → failure rest ≡ too_deep_unless b
          → failure (with_clause o (accepted q) rest) ≡ too_deep_unless b
      go (accepted cs) k = k
      go (rejected e) k = k
  failure-with_clause o (accepted q) rest false b h k = absurd (ground arith)
  failure-with_clause o (rejected e) rest true b h k = absurd (ground arith)
  failure-with_clause o (rejected e) rest false b h k = h

  failure-boolean_of : (cs : Checked (Query.Clauses F)) → failure (boolean_of cs) ≡ failure cs
  failure-boolean_of (accepted cs) = refl
  failure-boolean_of (rejected e) = refl

  module _ (left : ℕ) (child : BoolNode → Checked (Query.Query F))
      (ih : (n : BoolNode) → failure (child n) ≡ too_deep_unless (leb (levels n) left)) where
    failure-or_clauses :
        (children : BoolNodes)
        → failure (or_clauses child children) ≡ too_deep_unless (leb (or_levels children) left)
    unfolding or_clauses base_levels
    failure-or_clauses no_nodes = ground arith
    failure-or_clauses (node c children) =
        failure-with_clause should (child c) (or_clauses child children) (leb (levels c) left)
          (leb (or_levels children) left) (ih c) (failure-or_clauses children)
        ∙ ap too_deep_unless (sym (leb_max (levels c) (or_levels children) left))

    levels_single : (x : BoolNode) → negative x ≡ false → levels x ≡ base_levels x
    levels_single x n = rw n refl

    failure-child :
        (o : Occur) (x c : BoolNode) (children : BoolNodes) (rest : Checked (Query.Clauses F))
        → negative x ≡ false
        → base_levels x ≡ base_levels c
        → failure rest ≡ too_deep_unless (leb (and_levels children) left)
        → failure (with_clause o (child x) rest)
          ≡ too_deep_unless (leb (max (base_levels c) (and_levels children)) left)
    failure-child o x c children rest n same h =
        failure-with_clause o (child x) rest (leb (levels x) left) (leb (and_levels children) left)
          (ih x) h
        ∙ ap (λ (k : ℕ). too_deep_unless (leb k left && leb (and_levels children) left))
            (levels_single x n ∙ same)
        ∙ ap too_deep_unless (sym (leb_max (base_levels c) (and_levels children) left))

    even : (b : Bool) → not b ≡ true → b ≡ false
    even true h = absurd (ground arith)
    even false h = refl

    failure-and_clause :
        (s c : BoolNode) (children : BoolNodes) (rest : Checked (Query.Clauses F))
        → single s ≡ true
        → base_levels s ≡ base_levels c
        → failure rest ≡ too_deep_unless (leb (and_levels children) left)
        → failure (and_clause child s rest)
          ≡ too_deep_unless (leb (and_levels (node c children)) left)
    unfolding base_levels
    failure-and_clause (not_node x) c children rest one same h =
        failure-child must_not x c children rest (even (negative x) one) same h
    failure-and_clause (and_node xs) c children rest one same h =
        failure-child must (and_node xs) c children rest (unfold negative in refl) same h
    failure-and_clause (or_node xs) c children rest one same h =
        failure-child must (or_node xs) c children rest (unfold negative in refl) same h
    failure-and_clause (term_node t) c children rest one same h =
        failure-child must (term_node t) c children rest (unfold negative in refl) same h

    failure-and_clauses :
        (children : BoolNodes)
        → failure (and_clauses child children) ≡ too_deep_unless (leb (and_levels children) left)
    unfolding and_clauses base_levels
    failure-and_clauses no_nodes = ground arith
    failure-and_clauses (node c children) =
        failure-and_clause (strip_double_negation c) c children (and_clauses child children)
          (single-strip c) (base_levels-strip c) (failure-and_clauses children)

    failure-map_stripped :
        (text : Text) (accent_insensitive : Bool) (s : BoolNode)
        → single s ≡ true
        → failure (map_stripped text accent_insensitive child s)
          ≡ too_deep_unless (leb (levels s) (suc left))
    unfolding base_levels negative
    failure-map_stripped text ai (term_node t) one = ground arith
    failure-map_stripped text ai (not_node x) one =
        failure-boolean_of (with_clause must_not (child x) (accepted Query.no_clauses))
        ∙ failure-with_clause must_not (child x) (accepted Query.no_clauses) (leb (levels x) left)
            true (ih x) refl
        ∙ rw (even (negative x) one) (
            ap too_deep_unless (and_true (leb (base_levels x) left) ∙ leb-suc (base_levels x) left))
      where
        and_true : (b : Bool) → (b && true) ≡ b
        and_true true = refl
        and_true false = refl
    failure-map_stripped text ai (and_node xs) one =
        failure-boolean_of (and_clauses child xs)
        ∙ failure-and_clauses xs
        ∙ ap too_deep_unless (leb-suc (and_levels xs) left)
    failure-map_stripped text ai (or_node xs) one =
        failure-boolean_of (or_clauses child xs)
        ∙ failure-or_clauses xs
        ∙ ap too_deep_unless (leb-suc (or_levels xs) left)

module _ (F : Type 0) (text : Text) (accent_insensitive : Bool) where
  failure-map_within :
      (left : ℕ) (n : BoolNode)
      → failure (map_within {F = F} text accent_insensitive left n)
        ≡ too_deep_unless (leb (levels n) left)
  unfolding map_within
  failure-map_within zero n = ap too_deep_unless (none_at_zero (levels n) (levels_positive n))
  failure-map_within (suc left) n =
      failure-map_stripped left (map_within text accent_insensitive left) (failure-map_within left)
        text accent_insensitive (strip_double_negation n) (single-strip n)
      ∙ rw (negative-strip n, base_levels-strip n) refl

  -- map_bool_node refuses a tree, as too deep, exactly if its levels and the depth it starts at are
  -- more than MAX_TREE_DEPTH + 1, and accepts it otherwise. A term is one level, an `and` and an `or`
  -- are one more than their children; of the negations one on another, two are no level and an odd
  -- one is a level, which the one in front of a child of an `and` is not.
  pub failure-map_bool_node :
      (n : BoolNode) (depth : ℕ)
      → failure (map_bool_node {F = F} text accent_insensitive n depth)
        ≡ (if leb (levels n + depth) (max_tree_depth + 1) then none else some tree_too_deep)
  unfolding map_bool_node
  failure-map_bool_node n depth =
      failure-map_within (max_tree_depth + 1 - depth) n
      ∙ ap too_deep_unless (left_below (levels n) depth (levels_positive n))
