-- ===== src/Query/Filters.antt =====
-- sdsearch-core/src/query.rs: the allow-lists of the range filters and of the word filters.
pub mod Documents
pub mod Ranges
pub mod Words
use php_sdsearch.Prelude.{
  ℕ, List, [], ◌∷◌, map, length, leb, Option, none, some, Bool, true, false, not, ◌==◌, ◌&&◌,
}
use php_sdsearch.Prelude.{if◌then◌else◌}
use php_sdsearch.Index.{IndexReader}
use php_sdsearch.Analysis.{Text, analyze}
use php_sdsearch.Maps.{is_empty, insert_member}
use php_sdsearch.Query.Boolean.{intersect_in_place, meet}
use php_sdsearch.Strings.{sort_by}
use mathlib.Core.Ordering.{Ordering, lt, eq, gt}
use php_sdsearch.Prelude.{ltb}

pub record RangeFilter : Type 0 where
  pub field : List ℕ
  pub lower : Option (List ℕ)
  pub upper : Option (List ℕ)

pub record MatchAllFilter : Type 0 where
  pub field : List ℕ
  pub text : List ℕ

unfoldable pub drop_if_universal : Option (List ℕ) → ℕ → Option (List ℕ)
drop_if_universal none live = none
drop_if_universal (some s) live = if not (is_empty s) && (length s == live) then none else some s

unfoldable pub intersect_allow : Option (List ℕ) → Option (List ℕ) → Option (List ℕ)
unfolding intersect_in_place
intersect_allow none x = x
intersect_allow (some x) none = some x
intersect_allow (some x) (some y) = some (intersect_in_place x y)

-- The documents of some postings, behind those of `docs`.
unfoldable pub insert_docs : List (ℕ × ℕ) → List ℕ → List ℕ
insert_docs [] docs = docs
insert_docs ((doc_id, tf) ∷ postings) docs = insert_docs postings (insert_member docs doc_id)

abbrev pub or_empty : Option (List ℕ) → List ℕ
or_empty none = []
or_empty (some set) = set

abbrev pub by_rarity : ℕ × List ℕ → ℕ × List ℕ → Ordering
by_rarity a b = if ltb a.0 b.0 then lt else if ltb b.0 a.0 then gt else eq

module _ {F : Type 0} (index : IndexReader F) where
  unfoldable pub docs_in_terms : List ℕ → List (List ℕ) → List ℕ → List ℕ
  unfolding insert_docs
  docs_in_terms field [] docs = docs
  docs_in_terms field (term ∷ terms) docs =
      docs_in_terms field terms (insert_docs (index.postings_for field term) docs)

  abbrev pub docs_in_range : RangeFilter → List ℕ
  docs_in_range f = docs_in_terms f.field (index.terms_in_range f.field f.lower f.upper) []

  unfoldable pub ranges_from : List RangeFilter → Option (List ℕ) → Option (List ℕ)
  unfolding docs_in_terms
  ranges_from [] acc = acc
  ranges_from (f ∷ filters) acc = ranges_from filters (some (meet acc (docs_in_range f)))

  unfoldable pub range_allow_list : List RangeFilter → Option (List ℕ)
  unfolding ranges_from drop_if_universal
  range_allow_list filters =
      if is_empty filters then none else drop_if_universal (ranges_from filters none) index.num_docs

  -- `collect` into a set
  abbrev pub docs_with : List ℕ → List ℕ → List ℕ
  docs_with field t = insert_docs (index.postings_for field t) []

  -- The loop over the words, with its `break`.
  unfoldable pub words_from : List ℕ → List (ℕ × List ℕ) → Option (List ℕ) → Option (List ℕ)
  unfolding insert_docs
  words_from field [] set = set
  words_from field ((df, t) ∷ toks) set =
      let next = meet set (docs_with field t) in
      let rest = words_from field toks (some next) in if is_empty next then some next else rest

  -- `this`, for the words of a filter in order of rarity
  abbrev pub docs_with_all : List ℕ → List (ℕ × List ℕ) → List ℕ
  docs_with_all field [] = []
  docs_with_all field ((df, t) ∷ toks) =
      if df == 0 then [] else or_empty (words_from field ((df, t) ∷ toks) none)

  module _ (text : Text) where
    abbrev pub toks_of : MatchAllFilter → List (ℕ × List ℕ)
    toks_of f = map (λ t. (index.doc_freq f.field t, t)) (analyze text f.text)

    -- The loop over the filters, with its `continue` and its `break`.
    unfoldable pub words_filters : List MatchAllFilter → Option (List ℕ) → Option (List ℕ)
    unfolding words_from
    words_filters [] acc = acc
    words_filters (f ∷ filters) acc =
        let next = meet acc (docs_with_all f.field (sort_by by_rarity (toks_of f))) in
        let skipped = words_filters filters acc in
        let rest = words_filters filters (some next) in
        if is_empty (toks_of f) then skipped else if is_empty next then some next else rest

    unfoldable pub match_all_allow_list : List MatchAllFilter → Option (List ℕ)
    unfolding words_filters drop_if_universal
    match_all_allow_list filters = drop_if_universal (words_filters filters none) index.num_docs

    unfoldable pub allow_list : List RangeFilter → List MatchAllFilter → Option (List ℕ)
    unfolding range_allow_list match_all_allow_list intersect_allow
    allow_list range_filters match_all =
        intersect_allow (range_allow_list range_filters) (match_all_allow_list match_all)
