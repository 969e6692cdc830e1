-- ===== src/Query/Refines.antt =====
-- `eval` refines `value`: no allow-list and no order of evaluation changes the score of a document.
use php_sdsearch.Prelude.{
  ℕ, zero, suc, ◌≡◌, refl, sym, ap, ◌∙◌, arith, List, [], ◌∷◌, Option, none, some, Bool, true,
  false, not, ◌&&◌, ◌||◌,
}
use php_sdsearch.Prelude.{ltb, ◌==◌, if◌then◌else◌, Bool-cases, inl, inr}
use php_sdsearch.Floats.{Floats}
use php_sdsearch.Index.{IndexReader}
use php_sdsearch.Score.{Similarity}
use php_sdsearch.Analysis.{Text}
use php_sdsearch.Maps.{keep, contains, get, insert, map_values}
use php_sdsearch.Maps.Laws.{
  contains-keep, get-update, IsMap, IsMap-update, get-map_values, IsMap-map_values, map_option,
}
use php_sdsearch.Search.Scores.{
  allowed, add_weighted, term_scores, union_scores, fuzzy_scores, phrase_scores,
}
use php_sdsearch.Search.Terms.{
  wildcard_terms, accent_wildcard_terms, accent_variant_terms, fuzzy_terms,
}
use php_sdsearch.Search.Restrict.{
  Restricts, get-add_weighted, IsMap-add_weighted, add_values, term_scores-Restricts,
  union_scores-Restricts, fuzzy_scores-Restricts,
}
use php_sdsearch.Search.Phrase.{phrase_scores-Restricts}
use php_sdsearch.Query
use php_sdsearch.Query.Boolean.{Eval}
use php_sdsearch.Query.Boolean.Meaning.{Implements}
use php_sdsearch.Query.Boolean.Refines.{
  ClausesImplement, no_more, one_more, eval_boolean-value_boolean,
}
use php_sdsearch.Query.Meaning.{Value, value_leaf, value, value_clauses}

module _ (fl : Floats) (text : Text) (index : IndexReader fl.F32) (weights : List (List ℕ × fl.F32))
    (sim : Similarity) where
  open fl use {F32, single}
  open single use {decimal, mul}

  abbrev eval_leaf_of :
      (List ℕ → Option (List ℕ) → List (ℕ × F32))
      → List (List ℕ)
      → Option (List ℕ)
      → List (ℕ × F32)
      → List (ℕ × F32)
  eval_leaf_of = Query.eval_leaf fl text index weights sim

  IsMap-eval_leaf :
      (scores : List ℕ → Option (List ℕ) → List (ℕ × F32)) (fields : List (List ℕ))
      (r : Option (List ℕ)) (acc : List (ℕ × F32))
      → IsMap acc
      → IsMap (eval_leaf_of scores fields r acc)
  unfolding Query.eval_leaf
  IsMap-eval_leaf scores [] r acc h = h
  IsMap-eval_leaf scores (f ∷ fields) r acc h =
      IsMap-eval_leaf scores fields r _
        (IsMap-add_weighted fl (Query.field_weight fl text index weights sim f) (scores f r) acc h)

  get-eval_leaf :
      (scores : List ℕ → Option (List ℕ) → List (ℕ × F32)) (fields : List (List ℕ))
      (r : Option (List ℕ)) (d : ℕ) (acc : List (ℕ × F32))
      → ((f : List ℕ) → Restricts (scores f))
      → get d (eval_leaf_of scores fields r acc) ≡ (
          if allowed r d
          then value_leaf fl text index weights sim scores fields d (get d acc)
          else get d acc)
  unfolding Query.eval_leaf value_leaf
  get-eval_leaf scores [] r d acc h = elim (Bool-cases (allowed r d)) [
    | inl y ↦ rw y refl
    | inr n ↦ rw n refl
  ]
  get-eval_leaf scores (f ∷ fields) r d acc h =
      get-eval_leaf scores fields r d
        (add_weighted fl (Query.field_weight fl text index weights sim f) (scores f r) acc) h
      ∙ rw
          (
            get-add_weighted fl (Query.field_weight fl text index weights sim f) d (scores f r) acc,
            h f r d,
          )
          (elim (Bool-cases (allowed r d)) [
            | inl y ↦ rw y refl
            | inr n ↦ rw n (unfold add_values in refl)
          ])

  leaf-Implements :
      (scores : List ℕ → Option (List ℕ) → List (ℕ × F32)) (fields : List (List ℕ))
      → ((f : List ℕ) → Restricts (scores f))
      → Implements
          (λ r. eval_leaf_of scores fields r [])
          (λ d. value_leaf fl text index weights sim scores fields d none)
  leaf-Implements scores fields h r = (
    IsMap-eval_leaf scores fields r [] tt,
    λ d. unfold get in get-eval_leaf scores fields r d [] h,
  )

  -- `MatchAll`
  IsMap-collect_ones : (ids : List ℕ) → IsMap (Query.collect_ones fl text index weights sim ids)
  unfolding Query.collect_ones insert
  IsMap-collect_ones [] = tt
  IsMap-collect_ones (k ∷ ids) = IsMap-update k (λ o. decimal 1 0) _ (IsMap-collect_ones ids)

  get-collect_ones :
      (d : ℕ) (ids : List ℕ)
      → get d (Query.collect_ones fl text index weights sim ids)
        ≡ (if contains ids d then some (decimal 1 0) else none)
  unfolding Query.collect_ones insert contains get
  get-collect_ones d [] = refl
  get-collect_ones d (k ∷ ids) =
      get-update k d (λ o. decimal 1 0) (Query.collect_ones fl text index weights sim ids)
      ∙ ap (λ o. if k == d then some (decimal 1 0) else o) (get-collect_ones d ids)
      ∙ either (k == d) (contains ids d) (some (decimal 1 0)) none
    where
      either :
          {A : Type 0} (a b : Bool) (x y : A)
          → (if a then x else (if b then x else y)) ≡ (if a || b then x else y)
      either true b x y = refl
      either false b x y = refl

  contains-ids_below :
      (n d : ℕ) → contains (Query.ids_below fl text index weights sim n) d ≡ ltb d n
  unfolding Query.ids_below contains
  contains-ids_below zero d = ground arith
  contains-ids_below (suc n) d = ground (arith, contains-ids_below n d)

  abbrev live_in : ℕ → Bool
  live_in = Query.live fl text index weights sim

  abbrev one_if : Bool → Option F32
  one_if b = if b then some (decimal 1 0) else none

  twice : (a b : Bool) → (a && (a && b)) ≡ (a && b)
  twice true b = refl
  twice false b = refl

  nested : (a b : Bool) → one_if (a && b) ≡ (if a then one_if b else none)
  nested true b = refl
  nested false b = refl

  match_all-Implements :
      Implements
        (Query.eval_match_all fl text index weights sim)
        (λ d. if Query.live fl text index weights sim d then some (decimal 1 0) else none)
  unfolding Query.eval_match_all allowed
  match_all-Implements none = (
    IsMap-collect_ones (keep live_in (Query.ids_below fl text index weights sim index.total_docs)),
    λ d.
        get-collect_ones d
          (keep live_in (Query.ids_below fl text index weights sim index.total_docs))
        ∙ ap one_if (
            contains-keep live_in (Query.ids_below fl text index weights sim index.total_docs) d
            ∙ ap (λ b. b && live_in d) (contains-ids_below index.total_docs d)
            ∙ twice (ltb d index.total_docs) (not (index.is_deleted d))),
  )
  match_all-Implements (some r) = (
    IsMap-collect_ones (keep live_in r),
    λ d.
        get-collect_ones d (keep live_in r)
        ∙ ap one_if (contains-keep live_in r d)
        ∙ nested (contains r d) (live_in d),
  )

  boosted-Implements :
      (boost : F32) (e : Eval F32) (v : Value F32)
      → Implements e v
      → Implements
          (λ r. map_values (λ d s. mul s boost) (e r))
          (λ d. map_option (λ s. mul s boost) (v d))
  boosted-Implements boost e v h r = (
    IsMap-map_values _ (e r) (h r).0,
    λ d.
        get-map_values _ d (e r)
        ∙ ap (map_option (λ s. mul s boost)) ((h r).1 d)
        ∙ elim (Bool-cases (allowed r d)) [ inl y ↦ rw y refl | inr n ↦ rw n refl ],
  )

  abbrev fields_of : Option (List ℕ) → List (List ℕ)
  fields_of field = Query.target_fields index field

  mutual
    unfolding Query.eval value

    implements :
        (q : Query.Query F32)
        → Implements (Query.eval fl text index weights sim q) (value fl text index weights sim q)
    implements (Query.term field s) =
        leaf-Implements (λ f. term_scores fl index sim f s) (fields_of field)
          (λ f. term_scores-Restricts fl index sim f s)
    implements (Query.accent_term field s) =
        leaf-Implements (λ f. union_scores fl index sim f (accent_variant_terms index f s))
          (fields_of field)
          (λ f. union_scores-Restricts fl index sim f (accent_variant_terms index f s))
    implements (Query.wildcard field pattern n ai) =
        leaf-Implements (Query.wildcard_scores fl text index weights sim pattern n ai)
          (fields_of field)
          (λ f. union_scores-Restricts fl index sim f (
            if ai
            then accent_wildcard_terms text index f pattern n
            else wildcard_terms text index f pattern n))
    implements (Query.fuzzy field s similarity n ai) =
        leaf-Implements
          (λ f. fuzzy_scores fl index sim f (fuzzy_terms fl index f ai s similarity n))
          (fields_of field)
          (λ f. fuzzy_scores-Restricts fl index sim f (fuzzy_terms fl index f ai s similarity n))
    implements (Query.phrase field terms ai) =
        leaf-Implements (λ f. phrase_scores fl index sim f terms ai) (fields_of field)
          (λ f. phrase_scores-Restricts fl index sim f terms ai)
    implements (Query.boolean clauses) =
        eval_boolean-value_boolean single (clauses_implement clauses)
    implements (Query.boosted boost inner) = boosted-Implements boost _ _ (implements inner)
    implements Query.match_all = match_all-Implements

    clauses_implement :
        (clauses : Query.Clauses F32)
        → ClausesImplement
            (Query.eval_clauses fl text index weights sim clauses)
            (value_clauses fl text index weights sim clauses)
    clauses_implement Query.no_clauses = no_more
    clauses_implement (Query.clause o q clauses) =
        one_more (implements q) (clauses_implement clauses)

  -- Under any allow-list, `eval` gives a document of the list the score that `value` gives it, or
  -- none where that gives none, and a document out of the list no score.
  pub eval-value :
      (q : Query.Query F32) (r : Option (List ℕ)) (d : ℕ)
      → get d (Query.eval fl text index weights sim q r)
        ≡ (if allowed r d then value fl text index weights sim q d else none)
  eval-value q r = (implements q r).1

  -- An allow-list only leaves documents out: the score of a document of the list is its score
  -- without an allow-list.
  pub eval_restrict :
      (q : Query.Query F32) (r : Option (List ℕ)) (d : ℕ)
      → get d (Query.eval fl text index weights sim q r)
        ≡ (if allowed r d then get d (Query.eval fl text index weights sim q none) else none)
  eval_restrict q r d =
      eval-value q r d
      ∙ ap (λ o. if allowed r d then o else none) (sym (unfold allowed in eval-value q none d))
