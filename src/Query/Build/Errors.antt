-- ===== src/Query/Build/Errors.antt =====
-- When `build_query` fails, and with which error.
use php_sdsearch.Prelude.{
  ℕ, ◌+◌, ◌≡◌, refl, ap, ◌∙◌, arith, List, [], ◌∷◌, map, Option, none, some, Bool, true, false,
  ◌||◌, leb,
}
use php_sdsearch.Prelude.{if◌then◌else◌, Bool-cases, inl, inr}
use mathlib.Core.Path.{ap₂}
use php_sdsearch.Floats.{Float}
use php_sdsearch.Analysis.{Text}
use php_sdsearch.Query
use php_sdsearch.Query.Boolean.{Occur}
use php_sdsearch.Query.Filters.Documents.{any_of}
use php_sdsearch.Query.Tree.{
  QueryError, empty_field, tree_too_deep, Checked, accepted, rejected, BoolNode, max_tree_depth,
  map_bool_node,
}
use php_sdsearch.Query.Tree.Depth.{failure, levels, failure-map_bool_node}
use php_sdsearch.Query.Build.{
  WhereGroup, InGroup, QueryParams, after, group_query, term_of, key_field_in, blank, where_clauses,
  in_clauses, in_clause, root_of, first_clauses, with_base, build_query,
}

-- The first error.
abbrev pub first_of : Option QueryError → Option QueryError → Option QueryError
first_of none b = b
first_of (some e) b = some e

abbrev pub empty_field_if : Bool → Option QueryError
empty_field_if b = if b then some empty_field else none

module _ {F : Type 0} where
  failure-after :
      (a b : Checked (List (Occur × Query.Query F)))
      → failure (after a b) ≡ first_of (failure a) (failure b)
  failure-after (rejected e) b = refl
  failure-after (accepted x) (rejected e) = refl
  failure-after (accepted x) (accepted y) = refl

module _ {F : Type 0} (fl : Float F) (text : Text) where
  failure-where_clauses :
      (groups : List WhereGroup)
      → failure (where_clauses fl text groups)
        ≡ empty_field_if (any_of (λ wg. blank fl text wg.field) groups)
  unfolding where_clauses any_of
  failure-where_clauses [] = refl
  failure-where_clauses (wg ∷ groups) = elim (Bool-cases (blank fl text wg.field)) [
    | inl y ↦ rw y refl
    | inr n ↦ rw n (
        failure-after (accepted ((wg.occur, group_query wg) ∷ [])) (where_clauses fl text groups)
        ∙ failure-where_clauses groups)
  ]

  failure-in_clauses :
      (groups : List InGroup)
      → failure (in_clauses fl text groups)
        ≡ empty_field_if (any_of (λ ig. blank fl text ig.field) groups)
  unfolding in_clauses any_of
  failure-in_clauses [] = refl
  failure-in_clauses (ig ∷ groups) = elim (Bool-cases (blank fl text ig.field)) [
    | inl y ↦ rw y refl
    | inr n ↦ rw n (
        failure-after (accepted (map (term_of (key_field_in ig.field)) ig.values))
          (in_clauses fl text groups)
        ∙ failure-in_clauses groups)
  ]

  failure-in_clause :
      (groups : List InGroup) (c : Checked (List (Occur × Query.Query F)))
      → failure (in_clause fl text groups c) ≡ failure c
  failure-in_clause groups (accepted x) = refl
  failure-in_clause groups (rejected e) = refl

  failure-root_of : (c : Checked (Query.Query F)) → failure (root_of fl text c) ≡ failure c
  failure-root_of (accepted x) = refl
  failure-root_of (rejected e) = refl

  first_of-empty_field_if :
      (a b : Bool) → first_of (empty_field_if a) (empty_field_if b) ≡ empty_field_if (a || b)
  first_of-empty_field_if true b = refl
  first_of-empty_field_if false b = refl

  -- The error of the tree.
  abbrev pub tree_failure : Option BoolNode → Option QueryError
  tree_failure none = none
  tree_failure (some tree) =
      if leb (levels tree) (max_tree_depth + 1) then none else some tree_too_deep

  module _ (global : List ℕ → List (List ℕ)) where
    failure-with_base :
        (c : Checked (List (Occur × Query.Query F)))
        → failure (with_base fl text global c) ≡ failure c
    failure-with_base (accepted x) = refl
    failure-with_base (rejected e) = refl

    failure-first_clauses :
        (p : QueryParams F) (tree : Option BoolNode)
        → failure (first_clauses fl text global p tree) ≡ tree_failure tree
    failure-first_clauses p none = refl
    failure-first_clauses p (some tree) =
        failure-root_of (map_bool_node text p.accent_insensitive tree 0)
        ∙ failure-map_bool_node F text p.accent_insensitive tree 0
        ∙ ap (λ (n : ℕ). if leb n (max_tree_depth + 1) then none else some tree_too_deep)
            (ground arith)

    -- build_query fails with TreeTooDeep if there is a tree of more than MAX_TREE_DEPTH + 1 levels,
    -- else with EmptyField if some where or in group has a blank field, and else it does not fail. A
    -- term is one level, an `and` and an `or` are one more than their children; of the negations one
    -- on another, two are no level and an odd one is a level, which the one in front of a child of an
    -- `and` is not.
    pub failure-build_query :
        (p : QueryParams F)
        → failure (build_query fl text global p)
          ≡ first_of (tree_failure p.boolean_tree) (
              if any_of (λ wg. blank fl text wg.field) p.where_groups
                || any_of (λ ig. blank fl text ig.field) p.in_groups
              then some empty_field
              else none)
    unfolding build_query
    failure-build_query p =
        failure-with_base _
        ∙ failure-after (first_clauses fl text global p p.boolean_tree) _
        ∙ ap₂ first_of (failure-first_clauses p p.boolean_tree) (
            failure-after (where_clauses fl text p.where_groups)
              (in_clause fl text p.in_groups (in_clauses fl text p.in_groups))
            ∙ ap₂ first_of (failure-where_clauses p.where_groups) (
                failure-in_clause p.in_groups (in_clauses fl text p.in_groups)
                ∙ failure-in_clauses p.in_groups)
            ∙ first_of-empty_field_if (any_of (λ wg. blank fl text wg.field) p.where_groups)
                (any_of (λ ig. blank fl text ig.field) p.in_groups))
