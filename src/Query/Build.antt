-- ===== src/Query/Build.antt =====
-- sdsearch-core/src/query.rs: the parameters of a search, and the query built from them.
pub mod Errors
pub mod Top
pub mod Value
use php_sdsearch.Prelude.{
  ℕ, List, [], ◌∷◌, ◌++◌, map, Option, none, some, Bool, true, false, not, ◌&&◌, ◌||◌,
}
use php_sdsearch.Prelude.{if◌then◌else◌}
use php_sdsearch.Floats.{Float}
use php_sdsearch.Score.{Similarity}
use php_sdsearch.Strings.{contains_str}
use php_sdsearch.Analysis.{Text, analyze}
use php_sdsearch.Maps.{is_empty}
use php_sdsearch.Query
use php_sdsearch.Query.Boolean.{Occur, should, must, must_not, same_occur}
use php_sdsearch.Query.Filters.{RangeFilter, MatchAllFilter}
use php_sdsearch.Query.Tree.{BoolNode, Checked, accepted, rejected, empty_field, map_bool_node}

pub record WhereGroup : Type 0 where
  pub field : List ℕ
  pub values : List (List ℕ)
  pub occur : Occur

pub record InGroup : Type 0 where
  pub field : List ℕ
  pub values : List (List ℕ)

pub record SortSpec : Type 0 where
  pub field : List ℕ
  pub ascending : Bool

pub record QueryParams (F : Type 0) : Type 0 where
  pub text : List ℕ
  pub where_groups : List WhereGroup
  pub in_groups : List InGroup
  pub fuzzy_similarity : F
  pub fuzzy_prefix_len : ℕ
  pub wildcard_min_prefix : ℕ
  pub accent_insensitive : Bool
  pub synonyms : Bool
  pub field_weights : List (List ℕ × F)
  pub similarity : Similarity
  pub range_filters : List RangeFilter
  pub match_all : List MatchAllFilter
  pub sort : Option SortSpec
  pub boolean_tree : Option BoolNode

-- "_key"
abbrev pub key_suffix : List ℕ
key_suffix = 95 ∷ 107 ∷ 101 ∷ 121 ∷ []

unfoldable pub key_field_in : List ℕ → List ℕ
key_field_in field = if contains_str field key_suffix then field else field ++ key_suffix

module _ {F : Type 0} where
  -- `Vec<(Occur, Query)>` while it grows.
  unfoldable pub clauses_from : List (Occur × Query.Query F) → Query.Clauses F
  clauses_from [] = Query.no_clauses
  clauses_from ((o, q) ∷ list) = Query.clause o q (clauses_from list)

  unfoldable pub list_from : Query.Clauses F → List (Occur × Query.Query F)
  list_from Query.no_clauses = []
  list_from (Query.clause o q list) = (o, q) ∷ list_from list

  -- `all(|(o, _)| *o == Occur::MustNot)`
  unfoldable pub all_must_not : List (Occur × Query.Query F) → Bool
  all_must_not [] = true
  all_must_not ((o, q) ∷ list) = same_occur o must_not && all_must_not list

  -- `any(|(o, _)| matches!(o, Occur::Must | Occur::Should))`
  unfoldable pub any_positive_clause : List (Occur × Query.Query F) → Bool
  any_positive_clause [] = false
  any_positive_clause ((o, q) ∷ list) =
      (same_occur o must || same_occur o should) || any_positive_clause list

  -- What a tree adds to the top: the clauses of a root that only negates, or the root.
  unfoldable pub root_clauses : Query.Query F → List (Occur × Query.Query F)
  unfolding list_from all_must_not
  root_clauses (Query.boolean list) =
      if not (is_empty (list_from list)) && all_must_not (list_from list)
      then list_from list
      else (must, Query.boolean list) ∷ []
  root_clauses q = (must, q) ∷ []

  abbrev pub term_of : List ℕ → List ℕ → Occur × Query.Query F
  term_of field v = (should, Query.term (some field) v)

  abbrev pub group_query : WhereGroup → Query.Query F
  group_query wg = Query.boolean (clauses_from (map (term_of (wg.field ++ key_suffix)) wg.values))

  -- `?` in a sequence
  abbrev pub after :
      Checked (List (Occur × Query.Query F))
      → Checked (List (Occur × Query.Query F))
      → Checked (List (Occur × Query.Query F))
  after (rejected e) rest = rejected e
  after (accepted first) (rejected e) = rejected e
  after (accepted first) (accepted rest) = accepted (first ++ rest)

module _ {F : Type 0} (fl : Float F) (text : Text) where
  -- `SYNONYM_BOOST`
  abbrev pub synonym_boost : F
  synonym_boost = fl.decimal 6 1

  abbrev pub leaf : QueryParams F → List ℕ → Query.Query F
  leaf p s = if p.accent_insensitive then Query.accent_term none s else Query.term none s

  -- The synonyms of a token, by `expand` of the dictionary.
  abbrev pub synonym_clauses :
      QueryParams F → Option (List ℕ → List (List ℕ)) → List ℕ → List (Occur × Query.Query F)
  synonym_clauses p none tok = []
  synonym_clauses p (some expand) tok =
      map (λ syn. (should, Query.boosted synonym_boost (leaf p syn))) (expand tok)

  unfoldable pub token_clauses :
      QueryParams F → Option (List ℕ → List (List ℕ)) → List (List ℕ) → List (Occur × Query.Query F)
  token_clauses p dict [] = []
  token_clauses p dict (tok ∷ toks) =
      (should, leaf p tok)
      ∷ ((if p.synonyms then synonym_clauses p dict tok else []) ++ token_clauses p dict toks)

  abbrev pub fuzzy_clause : QueryParams F → List ℕ → Occur × Query.Query F
  fuzzy_clause p w =
      (should, Query.fuzzy none w p.fuzzy_similarity p.fuzzy_prefix_len p.accent_insensitive)

  unfoldable pub text_subquery_with_dict :
      QueryParams F → Option (List ℕ → List (List ℕ)) → Query.Query F
  unfolding token_clauses
  text_subquery_with_dict p dict =
      let lc = text.to_lowercase p.text in
      Query.boolean (
        clauses_from (
          map (fuzzy_clause p) (text.split_whitespace lc)
          ++ ((
            should,
            Query.wildcard none (lc ++ (42 ∷ [])) p.wildcard_min_prefix p.accent_insensitive,
          )
              ∷ token_clauses p dict (analyze text p.text))))

  abbrev pub blank : List ℕ → Bool
  blank s = is_empty (text.trim s)

  unfoldable pub where_clauses : List WhereGroup → Checked (List (Occur × Query.Query F))
  where_clauses [] = accepted []
  where_clauses (wg ∷ groups) =
      let rest = where_clauses groups in
      if blank wg.field
      then rejected empty_field
      else after (accepted ((wg.occur, group_query wg) ∷ [])) rest

  unfoldable pub in_clauses : List InGroup → Checked (List (Occur × Query.Query F))
  in_clauses [] = accepted []
  in_clauses (ig ∷ groups) =
      let rest = in_clauses groups in
      if blank ig.field
      then rejected empty_field
      else after (accepted (map (term_of (key_field_in ig.field)) ig.values)) rest

  -- The one required clause of all groups, if there are groups.
  abbrev pub in_clause :
      List InGroup → Checked (List (Occur × Query.Query F)) → Checked (List (Occur × Query.Query F))
  in_clause groups (rejected e) = rejected e
  in_clause groups (accepted list) =
      accepted (if is_empty groups then [] else (must, Query.boolean (clauses_from list)) ∷ [])

  abbrev pub root_of : Checked (Query.Query F) → Checked (List (Occur × Query.Query F))
  root_of (rejected e) = rejected e
  root_of (accepted q) = accepted (root_clauses q)

  module _ (global : List ℕ → List (List ℕ)) where
    abbrev pub text_subquery : QueryParams F → Query.Query F
    text_subquery p = text_subquery_with_dict p (if p.synonyms then some global else none)

    abbrev pub first_clauses :
        QueryParams F → Option BoolNode → Checked (List (Occur × Query.Query F))
    first_clauses p (some tree) = root_of (map_bool_node text p.accent_insensitive tree 0)
    first_clauses p none =
        accepted (if not (blank p.text) then (must, text_subquery p) ∷ [] else [])

    -- A top without anything positive starts from every document.
    abbrev pub with_base : Checked (List (Occur × Query.Query F)) → Checked (Query.Query F)
    with_base (rejected e) = rejected e
    with_base (accepted top) = accepted (
        Query.boolean (
          clauses_from
            (if any_positive_clause top then top else top ++ ((must, Query.match_all) ∷ []))))

    unfoldable pub build_query : QueryParams F → Checked (Query.Query F)
    unfolding map_bool_node root_clauses text_subquery_with_dict where_clauses in_clauses
        clauses_from any_positive_clause
    build_query p = with_base (
        after (first_clauses p p.boolean_tree)
          (after (where_clauses p.where_groups) (in_clause p.in_groups (in_clauses p.in_groups))))
