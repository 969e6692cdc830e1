-- ===== src/Query/Meaning.antt =====
-- What a query says of one document: its score, or that it is no hit. No allow-list and no order of
-- evaluation: a description of `eval` for one document at a time.
use php_sdsearch.Prelude.{
  ℕ, ◌+◌, List, [], ◌∷◌, map, length, Option, none, some, Bool, true, false, not, ◌&&◌, ◌||◌,
}
use php_sdsearch.Prelude.{ltb, if◌then◌else◌}
use php_sdsearch.Floats.{Floats, Float}
use php_sdsearch.Index.{IndexReader}
use php_sdsearch.Score.{Similarity}
use php_sdsearch.Analysis.{Text}
use php_sdsearch.Maps.{unwrap_or, is_some}
use php_sdsearch.Maps.Laws.{at, map_option}
use php_sdsearch.Search.Terms.{accent_variant_terms, fuzzy_terms}
use php_sdsearch.Search.Scores.{term_scores, union_scores, fuzzy_scores, phrase_scores}
use php_sdsearch.Search.Restrict.{add_values}
use php_sdsearch.Query
use php_sdsearch.Query.Boolean.{Occur, should, must, must_not, clauses_of}
use Prim.Native.Nat.{max}

-- The score of each document that is a hit.
abbrev pub Value : Type 0 → Type 0
Value F = ℕ → Option F

module _ {F : Type 0} (fl : Float F) where
  open fl use {decimal, of_nat, add, mul, div, sum}

  -- The score so far, and how many clauses matched.
  abbrev pub Count : Type 0
  Count = Option F × ℕ

  unfoldable pub add_value : Option F → Count → Count
  add_value none c = c
  add_value (some s) (o, k) = (some (add (unwrap_or o (decimal 0 0)) s), k + 1)

  unfoldable pub add_all : List (Value F) → ℕ → Count → Count
  unfolding add_value
  add_all [] d c = c
  add_all (v ∷ values) d c = add_all values d (add_value (v d) c)

  unfoldable pub raise_value : Option F → Count → Count
  raise_value s (none, k) = (none, k)
  raise_value none (some a, k) = (some a, k)
  raise_value (some s) (some a, k) = (some (add a s), k + 1)

  unfoldable pub raise_all : List (Value F) → ℕ → Count → Count
  unfolding raise_value
  raise_all [] d c = c
  raise_all (v ∷ values) d c = raise_all values d (raise_value (v d) c)

  unfoldable pub all_some : List (Value F) → ℕ → Bool
  all_some [] d = true
  all_some (v ∷ values) d = is_some (v d) && all_some values d

  unfoldable pub any_some : List (Value F) → ℕ → Bool
  any_some [] d = false
  any_some (v ∷ values) d = is_some (v d) || any_some values d

  -- The sum of the musts, in declared order.
  abbrev pub must_score : List (Value F) → ℕ → F
  must_score values d = sum (map (λ v. unwrap_or (v d) (decimal 0 0)) values)

  -- Without a must, at least one should; with musts, all of them.
  unfoldable pub count : List (Value F) → List (Value F) → ℕ → Count
  unfolding add_all raise_all all_some
  count [] shoulds d = add_all shoulds d (none, 0)
  count (v ∷ musts) shoulds d =
      if all_some (v ∷ musts) d
      then raise_all shoulds d (some (must_score (v ∷ musts) d), length (v ∷ musts))
      else (none, 0)

  -- Nothing that is excluded, and the share of the clauses that matched.
  unfoldable pub value_boolean : List (Occur × Value F) → Value F
  unfolding count any_some
  value_boolean clauses d =
      let musts = clauses_of must clauses in
      let shoulds = clauses_of should clauses in
      let (s, k) = count musts shoulds d in
      if any_some (clauses_of must_not clauses) d
      then none
      else map_option (λ a. mul a (div (of_nat k) (of_nat (max (length musts + length shoulds) 1))))
          s

-- The value of a query.
module _ (fl : Floats) (text : Text) (index : IndexReader fl.F32) (weights : List (List ℕ × fl.F32))
    (sim : Similarity) where
  open fl use {F32, single}
  open single use {decimal, mul}

  -- The scores of a leaf in each field, weighted by the field, and added up.
  unfoldable pub value_leaf :
      (List ℕ → Option (List ℕ) → List (ℕ × F32)) → List (List ℕ) → ℕ → Option F32 → Option F32
  unfolding add_values
  value_leaf scores [] d o = o
  value_leaf scores (f ∷ fields) d o =
      value_leaf scores fields d
        (add_values fl (Query.field_weight fl text index weights sim f) (at d (scores f none)) o)

  unfoldable mutual
    unfolding value_leaf value_boolean

    pub value : Query.Query F32 → Value F32
    value (Query.term field s) d =
        value_leaf (λ f. term_scores fl index sim f s) (Query.target_fields index field) d none
    value (Query.accent_term field s) d =
        value_leaf (λ f. union_scores fl index sim f (accent_variant_terms index f s))
          (Query.target_fields index field) d none
    value (Query.wildcard field pattern min_prefix_len accent_insensitive) d =
        value_leaf
          (Query.wildcard_scores fl text index weights sim pattern min_prefix_len
            accent_insensitive)
          (Query.target_fields index field) d none
    value (Query.fuzzy field s similarity prefix_len accent_insensitive) d =
        value_leaf
          (λ f.
            fuzzy_scores fl index sim f
              (fuzzy_terms fl index f accent_insensitive s similarity prefix_len))
          (Query.target_fields index field) d none
    value (Query.phrase field terms accent_insensitive) d =
        value_leaf (λ f. phrase_scores fl index sim f terms accent_insensitive)
          (Query.target_fields index field) d none
    value (Query.boolean clauses) d = value_boolean single (value_clauses clauses) d
    value (Query.boosted boost inner) d = map_option (λ s. mul s boost) (value inner d)
    value Query.match_all d =
        if ltb d index.total_docs && not (index.is_deleted d) then some (decimal 1 0) else none

    pub value_clauses : Query.Clauses F32 → List (Occur × Value F32)
    value_clauses Query.no_clauses = []
    value_clauses (Query.clause o q clauses) = (o, value q) ∷ value_clauses clauses
