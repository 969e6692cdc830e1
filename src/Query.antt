-- ===== src/Query.antt =====
-- sdsearch-core/src/query.rs: queries, and their evaluation to a map from documents to scores.
pub mod Boolean
pub mod Build
pub mod Filters
pub mod Meaning
pub mod Refines
pub mod Tree
use php_sdsearch.Prelude.{
  ℕ, zero, suc, ◌+◌, List, [], ◌∷◌, map, length, Option, none, some, Bool, true, false, not, ◌&&◌,
}
use php_sdsearch.Prelude.{ltb, leb, if◌then◌else◌}
use php_sdsearch.Floats.{Floats, Float}
use php_sdsearch.Index.{IndexReader}
use php_sdsearch.Score.{Similarity}
use php_sdsearch.Strings.{str_eq}
use php_sdsearch.Analysis.{Text}
use php_sdsearch.Maps.{keep, contains, is_empty, get, insert, map_values, unwrap_or}
use php_sdsearch.Search.Terms.{
  wildcard_terms, accent_wildcard_terms, accent_variant_terms, fuzzy_terms,
}
use php_sdsearch.Search.Scores.{
  add_weighted, term_scores, union_scores, fuzzy_scores, phrase_scores,
}
use php_sdsearch.Query.Boolean.{Occur, Eval, eval_boolean}

mutual
  pub data Query (F : Type 0) : Type 0 where
    term : Option (List ℕ) → List ℕ → Query F
    accent_term : Option (List ℕ) → List ℕ → Query F
    wildcard : Option (List ℕ) → List ℕ → ℕ → Bool → Query F
    fuzzy : Option (List ℕ) → List ℕ → F → ℕ → Bool → Query F
    phrase : Option (List ℕ) → List (List ℕ) → Bool → Query F
    boolean : Clauses F → Query F
    boosted : F → Query F → Query F
    match_all : Query F

  -- `Vec<(Occur, Query)>`
  pub data Clauses (F : Type 0) : Type 0 where
    no_clauses : Clauses F
    clause : Occur → Query F → Clauses F → Clauses F

unfoldable pub target_fields : {F : Type 0} → IndexReader F → Option (List ℕ) → List (List ℕ)
target_fields index (some f) = f ∷ []
target_fields index none = index.indexed_fields

module _ (fl : Floats) (text : Text) (index : IndexReader fl.F32) (weights : List (List ℕ × fl.F32))
    (sim : Similarity) where
  open fl use {F32, single}
  open single use {decimal, mul}

  abbrev pub weight_in : List (List ℕ × F32) → List ℕ → F32
  weight_in [] field = decimal 1 0
  weight_in ((name, w) ∷ rest) field = if str_eq name field then w else weight_in rest field

  unfoldable pub field_weight : List ℕ → F32
  field_weight field = weight_in weights field

  -- The loop over the target fields.
  unfoldable pub eval_leaf :
      (List ℕ → Option (List ℕ) → List (ℕ × F32))
      → List (List ℕ)
      → Option (List ℕ)
      → List (ℕ × F32)
      → List (ℕ × F32)
  unfolding field_weight
  eval_leaf scores [] restrict acc = acc
  eval_leaf scores (f ∷ fields) restrict acc =
      eval_leaf scores fields restrict (add_weighted fl (field_weight f) (scores f restrict) acc)

  abbrev pub live : ℕ → Bool
  live id = ltb id index.total_docs && not (index.is_deleted id)

  -- `collect` into a map, each with score 1
  unfoldable pub collect_ones : List ℕ → List (ℕ × F32)
  collect_ones [] = []
  collect_ones (id ∷ ids) = insert id (decimal 1 0) (collect_ones ids)

  -- `0..n`
  unfoldable pub ids_below : ℕ → List ℕ
  ids_below zero = []
  ids_below (suc n) = n ∷ ids_below n

  unfoldable pub eval_match_all : Option (List ℕ) → List (ℕ × F32)
  unfolding collect_ones ids_below
  eval_match_all none = collect_ones (keep live (ids_below index.total_docs))
  eval_match_all (some r) = collect_ones (keep live r)

  -- The scores of a leaf in a field.
  abbrev pub wildcard_scores : List ℕ → ℕ → Bool → List ℕ → Option (List ℕ) → List (ℕ × F32)
  wildcard_scores pattern min_prefix_len accent_insensitive f = union_scores fl index sim f (
      if accent_insensitive
      then accent_wildcard_terms text index f pattern min_prefix_len
      else wildcard_terms text index f pattern min_prefix_len)

  unfoldable mutual
    unfolding eval_leaf eval_match_all target_fields

    pub eval : Query F32 → Eval F32
    eval (term field s) restrict =
        eval_leaf (λ f. term_scores fl index sim f s) (target_fields index field) restrict []
    eval (accent_term field s) restrict =
        eval_leaf (λ f. union_scores fl index sim f (accent_variant_terms index f s))
          (target_fields index field) restrict []
    eval (wildcard field pattern min_prefix_len accent_insensitive) restrict =
        eval_leaf (wildcard_scores pattern min_prefix_len accent_insensitive)
          (target_fields index field) restrict []
    eval (fuzzy field s similarity prefix_len accent_insensitive) restrict =
        eval_leaf
          (λ f.
            fuzzy_scores fl index sim f
              (fuzzy_terms fl index f accent_insensitive s similarity prefix_len))
          (target_fields index field) restrict []
    eval (phrase field terms accent_insensitive) restrict =
        eval_leaf (λ f. phrase_scores fl index sim f terms accent_insensitive)
          (target_fields index field) restrict []
    eval (boolean clauses) restrict = eval_boolean single (eval_clauses clauses) restrict
    eval (boosted boost inner) restrict = map_values (λ d s. mul s boost) (eval inner restrict)
    eval match_all restrict = eval_match_all restrict

    pub eval_clauses : Clauses F32 → List (Occur × Eval F32)
    eval_clauses no_clauses = []
    eval_clauses (clause o q clauses) = (o, eval q) ∷ eval_clauses clauses
