-- ===== src/Examples/Search.antt =====
-- A small index, searched.
use php_sdsearch.Prelude.{
  true, ℕ, zero, suc, ◌+◌, ◌-◌, ◌*◌, ◌≡◌, refl, List, [], ◌∷◌, length, map, Option, none, some,
  false,
}
use php_sdsearch.Prelude.{arith, ◌&&◌, ltb, leb, ◌==◌, if◌then◌else◌, ◌/◌}
use mathlib.Core.Ordering.{Ordering, lt, eq, gt}
use Prim.Native.Nat.{max}
use php_sdsearch.Floats.{Float, Floats}
use php_sdsearch.Strings.{str_eq}
use php_sdsearch.Analysis.{Text}
use php_sdsearch.Index.{IndexReader}
use php_sdsearch.Score.{bm25, tf_idf}
use php_sdsearch.Maps.{
  get, keys, contains, map_values, is_empty, keep, update, insert, remove, is_some,
}
use php_sdsearch.Search.Scores.{allowed, add_weighted, term_scores, phrase_scores, word_positions}
use php_sdsearch.Search.Phrase.{phrase_value, get-phrase_scores}
use php_sdsearch.Query
use php_sdsearch.Query.Boolean.{must, must_not, clauses_of, meet, eval_boolean}
use php_sdsearch.Query.Meaning.{value}
use php_sdsearch.Query.Refines.{eval-value, eval_restrict}
use php_sdsearch.Maps.Sets.{Within}
use php_sdsearch.Query.Filters.{RangeFilter, MatchAllFilter, allow_list}
use php_sdsearch.Query.Filters.Documents.{all_of, any_of}
use php_sdsearch.Query.Filters.Ranges.{in_range}
use php_sdsearch.Query.Filters.Words.{has_words, allow_list_lem}
use php_sdsearch.Query.Tree.{
  empty_field, tree_too_deep, When, BoolNode, and_node, not_node, term_node, no_nodes, node,
  map_bool_node,
}
use php_sdsearch.Query.Tree.Classical.{supported, classical, map_bool_node-classical}
use php_sdsearch.Query.Tree.Meaning.{any_positive, negative, matches}
use php_sdsearch.Query.Tree.Value.{holds_phrase, map_bool_node-matches}
use php_sdsearch.Query.Tree.Depth.{base_levels, failure, failure-map_bool_node}
use php_sdsearch.Query.Build.{QueryParams, text_subquery, build_query}
use php_sdsearch.Prelude.{take, drop, ◌++◌}
use php_sdsearch.Strings.{place, sort_by}
use php_sdsearch.Search.Paging.{by_score, hydrate, finalize_paged}
use php_sdsearch.Search.Paging.Pages.{finalize_paged-page}
use mathlib.Core.List.{Permᴰ}
use php_sdsearch.Query.Build.Value.{meant, finds, build_query-meant}
use php_sdsearch.Query.Build.Errors.{failure-build_query}
use php_sdsearch.Analysis.{fold_accents, accent_variants}
use php_sdsearch.Analysis.Variants.{FoldTo, accent_variants-FoldTo}

abbrev sum_up : List ℕ → ℕ
sum_up [] = 0
sum_up (x ∷ xs) = x + sum_up xs

abbrev whole_cmp : ℕ → ℕ → Option Ordering
whole_cmp a b = some (if ltb a b then lt else if ltb b a then gt else eq)

-- Whole numbers in place of floating-point numbers.
abbrev whole : Float ℕ
whole = record {
  decimal = λ m k. m;
  of_nat = λ n. n;
  add = λ a b. a + b;
  sub = λ a b. a - b;
  mul = λ a b. a * b;
  div = λ a b. a / b;
  max = λ a b. max a b;
  ln = λ a. a;
  sqrt = λ a. a;
  sum = sum_up;
  gt = λ a b. ltb b a;
  ge = λ a b. leb b a;
  partial_cmp = whole_cmp;
}

abbrev whole_numbers : Floats
whole_numbers = record {
  F32 = ℕ;
  F64 = ℕ;
  single = whole;
  double = whole;
  widen = λ a. a;
  narrow = λ a. a;
  int_lt = λ a n. ltb a n;
}

-- Text without white space, and a pattern that stands for itself.
abbrev plain_text : Text
plain_text = record {
  tokens = λ s. s ∷ [];
  to_lowercase = λ s. s;
  is_whitespace = λ c. c == 32;
  trim = λ s. s;
  split_whitespace = λ s. s ∷ [];
  escape = λ s. s;
  compile = λ s. some (str_eq s);
}

-- The word `a` is in the documents 0 and 1, the word `b` in 1 and 2, behind an `a` in 1.
abbrev postings : List ℕ → List ℕ → List (ℕ × ℕ)
postings field s =
    if str_eq s (97 ∷ [])
    then (0, 1) ∷ (1, 1) ∷ []
    else if str_eq s (98 ∷ [])
    then (1, 1) ∷ (2, 2) ∷ []
    else []

abbrev positions : List ℕ → List ℕ → List (ℕ × List ℕ)
positions field s =
    if str_eq s (97 ∷ [])
    then (0, 3 ∷ []) ∷ (1, 0 ∷ []) ∷ []
    else if str_eq s (98 ∷ [])
    then (1, 1 ∷ []) ∷ (2, 0 ∷ 5 ∷ []) ∷ []
    else []

abbrev title : List ℕ
title = 116 ∷ []

abbrev three_docs : IndexReader ℕ
three_docs = record {
  num_docs = 3;
  total_docs = 3;
  is_deleted = λ d. false;
  doc_freq = λ field s. length (postings field s);
  postings_for = postings;
  field_len = λ d field. 2;
  avg_field_len = λ field. 2;
  stored_fields = λ d. [];
  terms_with_prefix = λ field prefix. [];
  terms_with_prefix_limited = λ field prefix n. [];
  terms_in_range = λ field lower upper. (97 ∷ []) ∷ [];
  indexed_fields = title ∷ [];
  positions_all = positions;
}

abbrev word_a : Query.Query ℕ
word_a = Query.term none (97 ∷ [])

abbrev word_b : Query.Query ℕ
word_b = Query.term none (98 ∷ [])

-- `a`, and not `b`.
abbrev a_without_b : Query.Query ℕ
a_without_b =
    Query.boolean (Query.clause must word_a (Query.clause must_not word_b Query.no_clauses))

abbrev run : Query.Query ℕ → Option (List ℕ) → List (ℕ × ℕ)
run = Query.eval whole_numbers plain_text three_docs [] tf_idf

run_example : keys (run a_without_b none) ≡ 0 ∷ []
unfolding Query.eval keys eval_boolean map_values is_empty clauses_of meet add_weighted term_scores
    keep str_eq update insert contains remove
run_example = refl

eval-value_example :
    get 0 (run a_without_b (some (0 ∷ [])))
    ≡ value whole_numbers plain_text three_docs [] tf_idf a_without_b 0
unfolding allowed contains
eval-value_example =
    eval-value whole_numbers plain_text three_docs [] tf_idf a_without_b (some (0 ∷ [])) 0

eval_restrict_example : get 0 (run a_without_b (some (0 ∷ []))) ≡ get 0 (run a_without_b none)
unfolding allowed contains
eval_restrict_example =
    eval_restrict whole_numbers plain_text three_docs [] tf_idf a_without_b (some (0 ∷ [])) 0

get-phrase_scores_example :
    get 1
      (phrase_scores whole_numbers three_docs tf_idf title ((97 ∷ []) ∷ (98 ∷ []) ∷ []) false none)
    ≡ phrase_value whole_numbers three_docs tf_idf title
        (map
          (word_positions whole_numbers three_docs tf_idf title false)
          ((97 ∷ []) ∷ (98 ∷ []) ∷ []))
        1
unfolding allowed
get-phrase_scores_example =
    get-phrase_scores whole_numbers three_docs tf_idf title ((97 ∷ []) ∷ (98 ∷ []) ∷ []) false none
      1

-- The two documents of the words, and both are alive.
abbrev both_live : List ℕ
both_live = 0 ∷ 1 ∷ 2 ∷ []

postings_inside : (field t : List ℕ) → Within (keys (postings field t)) both_live
unfolding keys contains
postings_inside field t d = ground arith

honest_count : (field t : List ℕ) → length (postings field t) ≡ 0 → postings field t ≡ []
honest_count field t h = ground arith

-- Titles from `a` on, that have the word `b`.
abbrev from_a : List RangeFilter
from_a = (record { field = title; lower = some (97 ∷ []); upper = none }) ∷ []

abbrev with_b : List MatchAllFilter
with_b = (record { field = title; text = 98 ∷ [] }) ∷ []

allow_list_lem_example :
    allowed (allow_list three_docs plain_text from_a with_b) 1
    ≡ (all_of (in_range three_docs 1) from_a && all_of (has_words three_docs plain_text 1) with_b)
allow_list_lem_example =
    allow_list_lem three_docs plain_text honest_count both_live postings_inside refl from_a with_b 1
      (unfold contains in refl)

-- `a` and not `b`, behind two negations.
abbrev tree : BoolNode
tree = not_node (
    not_node
      (and_node (node (term_node (97 ∷ [])) (node (not_node (term_node (98 ∷ []))) no_nodes))))

map_bool_node-matches_example :
    When
      (λ q.
        is_some (value whole_numbers plain_text three_docs [] tf_idf q 0)
        ≡ matches (holds_phrase whole_numbers plain_text three_docs [] tf_idf false 0) tree)
      (map_bool_node plain_text false tree 0)
map_bool_node-matches_example =
    map_bool_node-matches whole_numbers plain_text three_docs [] tf_idf false 0 tree 0

failure-map_bool_node_example : failure (map_bool_node {F = ℕ} plain_text false tree 31) ≡ none
unfolding base_levels negative
failure-map_bool_node_example = failure-map_bool_node ℕ plain_text false tree 31

abbrev leaf : BoolNode
leaf = term_node (97 ∷ [])

-- `n` times `NOT`, `n` times an `AND` of one child, and `n` times both.
abbrev nots : ℕ → BoolNode
nots zero = leaf
nots (suc n) = not_node (nots n)

abbrev ands : ℕ → BoolNode
ands zero = leaf
ands (suc n) = and_node (node (ands n) no_nodes)

abbrev ands_of_nots : ℕ → BoolNode
ands_of_nots zero = leaf
ands_of_nots (suc n) = and_node (node (not_node (ands_of_nots n)) no_nodes)

thirty_two_ands : failure (map_bool_node {F = ℕ} plain_text false (ands 32) 0) ≡ none
unfolding base_levels negative
thirty_two_ands = failure-map_bool_node ℕ plain_text false (ands 32) 0

thirty_three_ands :
    failure (map_bool_node {F = ℕ} plain_text false (ands 33) 0) ≡ some tree_too_deep
unfolding base_levels negative
thirty_three_ands = failure-map_bool_node ℕ plain_text false (ands 33) 0

forty_nots : failure (map_bool_node {F = ℕ} plain_text false (nots 40) 0) ≡ none
unfolding base_levels negative
forty_nots = failure-map_bool_node ℕ plain_text false (nots 40) 0

-- Sixty-four operators, one in the other.
thirty_two_ands_of_nots :
    failure (map_bool_node {F = ℕ} plain_text false (ands_of_nots 32) 0) ≡ none
unfolding base_levels negative
thirty_two_ands_of_nots = failure-map_bool_node ℕ plain_text false (ands_of_nots 32) 0

-- A tree, and a group whose field is empty.
abbrev params : QueryParams ℕ
params = record {
  text = 97 ∷ [];
  where_groups = (record { field = []; values = (98 ∷ []) ∷ []; occur = must_not }) ∷ [];
  in_groups = [];
  fuzzy_similarity = 1;
  fuzzy_prefix_len = 1;
  wildcard_min_prefix = 3;
  accent_insensitive = false;
  synonyms = false;
  field_weights = [];
  similarity = bm25;
  range_filters = from_a;
  match_all = with_b;
  sort = none;
  boolean_tree = some tree;
}

failure-build_query_example :
    failure (build_query whole plain_text (λ s. []) params) ≡ some empty_field
unfolding base_levels negative is_empty any_of
failure-build_query_example = failure-build_query whole plain_text (λ s. []) params

-- gestión
abbrev accented : List ℕ
accented = 103 ∷ 101 ∷ 115 ∷ 116 ∷ 105 ∷ 243 ∷ 110 ∷ []

accent_variants-FoldTo_example : FoldTo (fold_accents accented) (accent_variants accented)
accent_variants-FoldTo_example = accent_variants-FoldTo accented

-- The word `a`, in titles that have a keyword.
abbrev plain_params : QueryParams ℕ
plain_params = record {
  text = 97 ∷ [];
  where_groups = (record { field = title; values = (98 ∷ []) ∷ []; occur = must_not }) ∷ [];
  in_groups = (record { field = title; values = (97 ∷ []) ∷ (98 ∷ []) ∷ [] }) ∷ [];
  fuzzy_similarity = 1;
  fuzzy_prefix_len = 1;
  wildcard_min_prefix = 3;
  accent_insensitive = false;
  synonyms = false;
  field_weights = [];
  similarity = bm25;
  range_filters = [];
  match_all = [];
  sort = none;
  boolean_tree = none;
}

build_query-meant_example :
    When
      (λ q.
        is_some (value whole_numbers plain_text three_docs [] tf_idf q 0)
        ≡ meant whole_numbers plain_text three_docs [] tf_idf 0 true
            (finds whole_numbers plain_text three_docs [] tf_idf 0
              (text_subquery whole plain_text (λ s. []) plain_params))
            plain_params.where_groups
            plain_params.in_groups)
      (build_query whole plain_text (λ s. []) plain_params)
unfolding is_empty
build_query-meant_example =
    build_query-meant whole_numbers plain_text three_docs [] tf_idf 0 (λ s. []) plain_params refl

abbrev turned : List (ℕ × ℕ) → List (ℕ × ℕ)
turned [] = []
turned (x ∷ xs) = turned xs ++ (x ∷ [])

-- A selection that leaves the elements in front in falling order.
abbrev turn_front : (ℕ × ℕ → ℕ × ℕ → Ordering) → ℕ → List (ℕ × ℕ) → List (ℕ × ℕ)
turn_front cmp n xs = let s = sort_by cmp xs in turned (take n s) ++ drop n s

abbrev four_scores : List (ℕ × ℕ)
four_scores = (2, 5) ∷ (7, 1) ∷ (0, 5) ∷ (1, 9) ∷ []

-- The second of three hits; document 7 has too low a score.
finalize_paged-page_example :
    (finalize_paged whole_numbers three_docs turn_front four_scores 2 1 1 none).hits
    ≡ map
        (hydrate whole_numbers three_docs)
        (take 1 (drop 1 (sort_by (by_score whole_numbers) ((2, 5) ∷ (0, 5) ∷ (1, 9) ∷ []))))
unfolding keep get sort_by place
finalize_paged-page_example =
    finalize_paged-page whole_numbers (λ a. a) 2 (λ a b h k. refl) turn_front three_docs four_scores
      1 1 none (refl, (refl, (refl, (refl, tt)))) (omega arith)
      (λ far. record {
        front = (0, 5) ∷ (1, 9) ∷ [];
        nth = (2, 5);
        back = [];
        parts = refl;
        count = refl;
        perm = Permᴰ.trans (Permᴰ.swap refl refl) (Permᴰ.cons refl (Permᴰ.swap refl refl));
        before = (refl, (refl, tt));
        behind = tt;
      })

map_bool_node-classical_example :
    When
      (λ q.
        is_some (value whole_numbers plain_text three_docs [] tf_idf q 0)
        ≡ classical (holds_phrase whole_numbers plain_text three_docs [] tf_idf false 0) tree)
      (map_bool_node plain_text false tree 0)
map_bool_node-classical_example =
    map_bool_node-classical whole_numbers plain_text three_docs [] tf_idf false 0 tree 0
      (unfold negative any_positive supported in refl) (unfold negative in refl)
