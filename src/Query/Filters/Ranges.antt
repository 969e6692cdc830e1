-- ===== src/Query/Filters/Ranges.antt =====
-- A document is on the allow-list of the range filters if each filter holds of it.
use php_sdsearch.Prelude.{
  ℕ, ◌≡◌, refl, ap, ◌∙◌, arith, List, [], ◌∷◌, length, Option, none, some, Bool, true, ◌&&◌, ◌||◌,
}
use php_sdsearch.Index.{IndexReader}
use php_sdsearch.Maps.{contains, is_empty, keys}
use php_sdsearch.Maps.Sets.{Within}
use php_sdsearch.Query.Boolean.{meet}
use php_sdsearch.Query.Filters.{
  RangeFilter, insert_docs, docs_in_terms, docs_in_range, ranges_from, range_allow_list,
}
use php_sdsearch.Query.Filters.Documents.{
  all_of, any_of, contains-insert_docs, IsSetOf-insert_docs, Within-insert_docs, IsListOf,
  IsListOf-meet, allowed-meet, allowed-drop_if_universal,
}
use php_sdsearch.Search.Scores.{allowed}

module _ {F : Type 0} (index : IndexReader F) where
  -- The document has the term in the field.
  abbrev pub has_term : List ℕ → ℕ → List ℕ → Bool
  has_term field d t = contains (keys (index.postings_for field t)) d

  abbrev pub in_range : ℕ → RangeFilter → Bool
  in_range d f = any_of (has_term f.field d) (index.terms_in_range f.field f.lower f.upper)

  contains-docs_in_terms :
      (field : List ℕ) (terms : List (List ℕ)) (docs : List ℕ) (d : ℕ)
      → contains (docs_in_terms index field terms docs) d
        ≡ (any_of (has_term field d) terms || contains docs d)
  unfolding docs_in_terms any_of
  contains-docs_in_terms field [] docs d = refl
  contains-docs_in_terms field (t ∷ terms) docs d =
      contains-docs_in_terms field terms (insert_docs (index.postings_for field t) docs) d
      ∙ rw (contains-insert_docs (index.postings_for field t) docs d) (ground arith)

  contains-docs_in_range :
      (f : RangeFilter) (d : ℕ) → contains (docs_in_range index f) d ≡ in_range d f
  contains-docs_in_range f d =
      contains-docs_in_terms f.field _ [] d ∙ unfold contains in ground arith

  allowed-ranges_from :
      (filters : List RangeFilter) (acc : Option (List ℕ)) (d : ℕ)
      → allowed (ranges_from index filters acc) d ≡ (allowed acc d && all_of (in_range d) filters)
  unfolding ranges_from all_of
  allowed-ranges_from [] acc d = ground arith
  allowed-ranges_from (f ∷ filters) acc d =
      allowed-ranges_from filters (some (meet acc (docs_in_range index f))) d
      ∙ ap (λ b. b && all_of (in_range d) filters) (allowed-meet acc (docs_in_range index f) d)
      ∙ rw (contains-docs_in_range f d) (ground arith)

  module _ (ids : List ℕ)
      (inside : (field t : List ℕ) → Within (keys (index.postings_for field t)) ids) where
    IsListOf-docs_in_terms :
        (field : List ℕ) (terms : List (List ℕ)) (docs : List ℕ)
        → IsListOf ids (some docs)
        → IsListOf ids (some (docs_in_terms index field terms docs))
    unfolding docs_in_terms
    IsListOf-docs_in_terms field [] docs h = h
    IsListOf-docs_in_terms field (t ∷ terms) docs h = IsListOf-docs_in_terms field terms _ (
      IsSetOf-insert_docs (index.postings_for field t) docs h.0,
      Within-insert_docs ids (index.postings_for field t) docs (inside field t) h.1,
    )

    IsListOf-ranges_from :
        (filters : List RangeFilter) (acc : Option (List ℕ))
        → IsListOf ids acc
        → IsListOf ids (ranges_from index filters acc)
    unfolding ranges_from
    IsListOf-ranges_from [] acc h = h
    IsListOf-ranges_from (f ∷ filters) acc h = IsListOf-ranges_from filters _ (
        IsListOf-meet ids acc (docs_in_range index f) h (
          IsListOf-docs_in_terms f.field (index.terms_in_range f.field f.lower f.upper) [] nothing))
      where
        nothing : IsListOf ids (some [])
        nothing = (tt, λ d y. absurd (unfold contains in ground arith))

    -- If the postings of the index hold only documents of `ids`, and these are as many as num_docs
    -- says, then one of them is on the list of range_allow_list, or there is no list, exactly if it
    -- has for each filter a term of the filter's range in the filter's field.
    pub range_allow_list_lem :
        length ids ≡ index.num_docs
        → (filters : List RangeFilter) (d : ℕ) → contains ids d ≡ true
        → allowed (range_allow_list index filters) d ≡ all_of (in_range d) filters
    unfolding range_allow_list allowed all_of is_empty
    range_allow_list_lem same [] d y = refl
    range_allow_list_lem same (f ∷ filters) d y =
        allowed-drop_if_universal ids (ranges_from index (f ∷ filters) none) index.num_docs d
          (IsListOf-ranges_from (f ∷ filters) none tt) same y
        ∙ allowed-ranges_from (f ∷ filters) none d
