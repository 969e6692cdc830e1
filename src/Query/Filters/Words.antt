-- ===== src/Query/Filters/Words.antt =====
-- A document is on the allow-list of the word filters if it has every word of each.
use php_sdsearch.Prelude.{
  ℕ, ◌≡◌, refl, sym, ap, ◌∙◌, arith, List, [], ◌∷◌, map, length, Option, none, some, Bool, true,
  false, ◌==◌, ◌&&◌,
}
use php_sdsearch.Prelude.{Bool-cases, inl, inr}
use php_sdsearch.Index.{IndexReader}
use php_sdsearch.Analysis.{Text, analyze}
use php_sdsearch.Strings.Sorting.{all_of-sort_by, is_empty-sort_by}
use php_sdsearch.Strings.{sort_by}
use php_sdsearch.Maps.{contains, is_empty, keys}
use php_sdsearch.Maps.Sets.{Within}
use php_sdsearch.Query.Boolean.{meet}
use php_sdsearch.Query.Boolean.Meaning.{and_left}
use php_sdsearch.Query.Filters.{
  MatchAllFilter, docs_with, words_from, or_empty, by_rarity, docs_with_all, toks_of, words_filters,
  match_all_allow_list, RangeFilter, range_allow_list, allow_list,
}
use php_sdsearch.Query.Filters.Documents.{
  all_of, contains-insert_docs, IsSetOf-insert_docs, Within-insert_docs, IsListOf, IsListOf-meet,
  allowed-meet, allowed-drop_if_universal, allowed-intersect_allow,
}
use php_sdsearch.Query.Filters.Ranges.{has_term, in_range, range_allow_list_lem}
use php_sdsearch.Search.Scores.{allowed}

module _ {F : Type 0} (index : IndexReader F) (text : Text) where
  -- The document has every word of the text in the field.
  abbrev pub has_words : ℕ → MatchAllFilter → Bool
  has_words d f = all_of (has_term index f.field d) (analyze text f.text)

  abbrev has_tok : List ℕ → ℕ → ℕ × List ℕ → Bool
  has_tok field d tok = has_term index field d tok.1

  contains-docs_with :
      (field t : List ℕ) (d : ℕ) → contains (docs_with index field t) d ≡ has_term index field d t
  contains-docs_with field t d =
      contains-insert_docs (index.postings_for field t) [] d ∙ unfold contains in ground arith

  and_assoc : (a b c : Bool) → ((a && b) && c) ≡ (a && (b && c))
  and_assoc true b c = refl
  and_assoc false b c = refl

  -- What is already false.
  nothing_left : (n a b c : Bool) → n ≡ (a && b) → n ≡ false → n ≡ (a && (b && c))
  nothing_left n a b c h f = f ∙ ap (λ x. x && c) (sym (sym h ∙ f)) ∙ and_assoc a b c

  none_in : (set : List ℕ) (d : ℕ) → is_empty set ≡ true → contains set d ≡ false
  unfolding contains is_empty
  none_in [] d h = refl
  none_in (x ∷ xs) d h = absurd (ground arith)

  allowed-words_from :
      (field : List ℕ) (toks : List (ℕ × List ℕ)) (set : Option (List ℕ)) (d : ℕ)
      → allowed (words_from index field toks set) d
        ≡ (allowed set d && all_of (has_tok field d) toks)
  unfolding words_from all_of
  allowed-words_from field [] set d = ground arith
  allowed-words_from field ((df, t) ∷ toks) set d =
      let next = meet set (docs_with index field t) in
      let step : allowed (some next) d ≡ (allowed set d && has_term index field d t) =
        allowed-meet set (docs_with index field t) d
        ∙ ap (λ b. allowed set d && b) (contains-docs_with field t d) in
      elim (Bool-cases (is_empty next)) [
        | inl y ↦ rw y (
            nothing_left (allowed (some next) d) (allowed set d) (has_term index field d t) _ step
              (unfold allowed in none_in next d y))
        | inr n ↦ rw n (
            allowed-words_from field toks (some next) d
            ∙ ap (λ b. b && all_of (has_tok field d) toks) step
            ∙ and_assoc (allowed set d) (has_term index field d t) _)
      ]

  some_left :
      (field : List ℕ) (toks : List (ℕ × List ℕ)) (set : List ℕ) (d : ℕ)
      → contains (or_empty (words_from index field toks (some set))) d
        ≡ allowed (words_from index field toks (some set)) d
  unfolding words_from allowed
  some_left field [] set d = refl
  some_left field ((df, t) ∷ toks) set d =
      elim (Bool-cases (is_empty (meet (some set) (docs_with index field t)))) [
        | inl y ↦ rw y refl
        | inr n ↦ rw n (some_left field toks (meet (some set) (docs_with index field t)) d)
      ]

  some_of :
      (field : List ℕ) (df : ℕ) (t : List ℕ) (toks : List (ℕ × List ℕ)) (set : Option (List ℕ))
      (d : ℕ)
      → contains (or_empty (words_from index field ((df, t) ∷ toks) set)) d
        ≡ allowed (words_from index field ((df, t) ∷ toks) set) d
  unfolding words_from allowed
  some_of field df t toks set d =
      elim (Bool-cases (is_empty (meet set (docs_with index field t)))) [
        | inl y ↦ rw y refl
        | inr n ↦ rw n (some_left field toks (meet set (docs_with index field t)) d)
      ]

  -- Each count is the index's.
  abbrev counts : List ℕ → ℕ × List ℕ → Bool
  counts field tok = tok.0 == index.doc_freq field tok.1

  module _
      (honest : (field t : List ℕ)
        → index.doc_freq field t ≡ 0
        → index.postings_for field t ≡ []) where
    no_term :
        (field t : List ℕ) (df d : ℕ)
        → (df == 0) ≡ true
        → (df == index.doc_freq field t) ≡ true
        → has_term index field d t ≡ false
    no_term field t df d z c =
        let zero_count : index.doc_freq field t ≡ 0 = ground arith in
        ap (λ ps. contains (keys ps) d) (honest field t zero_count) ∙ unfold contains keys in refl

    contains-docs_with_all :
        (field : List ℕ) (toks : List (ℕ × List ℕ)) (d : ℕ)
        → is_empty toks ≡ false
        → all_of (counts field) toks ≡ true
        → contains (docs_with_all index field toks) d ≡ all_of (has_tok field d) toks
    unfolding all_of
    contains-docs_with_all field [] d h c = absurd (unfold is_empty in ground arith)
    contains-docs_with_all field ((df, t) ∷ toks) d h c = elim (Bool-cases (df == 0)) [
      | inl z ↦
          rw (z, no_term field t df d z (and_left (df == index.doc_freq field t) _ c))
            (unfold contains in refl)
      | inr n ↦ rw n (
          some_of field df t toks none d
          ∙ unfold all_of allowed in allowed-words_from field ((df, t) ∷ toks) none d)
    ]

    all_of-toks :
        (field : List ℕ) (d : ℕ) (ts : List (List ℕ))
        → all_of (has_tok field d) (map (λ t. (index.doc_freq field t, t)) ts)
          ≡ all_of (has_term index field d) ts
    unfolding all_of
    all_of-toks field d [] = refl
    all_of-toks field d (t ∷ ts) = ap (λ b. has_term index field d t && b) (all_of-toks field d ts)

    all_of-counts :
        (field : List ℕ) (ts : List (List ℕ))
        → all_of (counts field) (map (λ t. (index.doc_freq field t, t)) ts) ≡ true
    unfolding all_of
    all_of-counts field [] = refl
    all_of-counts field (t ∷ ts) =
        rw (all_of-counts field ts) (same_number (index.doc_freq field t))
      where
        same_number : (n : ℕ) → (n == n && true) ≡ true
        same_number n = ground arith

    contains-this :
        (f : MatchAllFilter) (d : ℕ)
        → is_empty (toks_of index text f) ≡ false
        → contains (docs_with_all index f.field (sort_by by_rarity (toks_of index text f))) d
          ≡ has_words d f
    contains-this f d n =
        contains-docs_with_all f.field (sort_by by_rarity (toks_of index text f)) d
          (is_empty-sort_by (has_tok f.field d) by_rarity (toks_of index text f) ∙ n)
          (all_of-sort_by (counts f.field) by_rarity (toks_of index text f)
            ∙ all_of-counts f.field (analyze text f.text))
        ∙ all_of-sort_by (has_tok f.field d) by_rarity (toks_of index text f)
        ∙ all_of-toks f.field d (analyze text f.text)

    no_words :
        (field : List ℕ) (d : ℕ) (ts : List (List ℕ))
        → is_empty {A = ℕ × List ℕ} (map (λ t. (index.doc_freq field t, t)) ts) ≡ true
        → all_of (has_term index field d) ts ≡ true
    unfolding all_of is_empty
    no_words field d [] y = refl
    no_words field d (t ∷ ts) y = absurd (ground arith)

    vacuous :
        (f : MatchAllFilter) (d : ℕ) → is_empty (toks_of index text f) ≡ true → has_words d f ≡ true
    vacuous f d y = no_words f.field d (analyze text f.text) y

    allowed-words_filters :
        (filters : List MatchAllFilter) (acc : Option (List ℕ)) (d : ℕ)
        → allowed (words_filters index text filters acc) d
          ≡ (allowed acc d && all_of (has_words d) filters)
    unfolding words_filters all_of
    allowed-words_filters [] acc d = ground arith
    allowed-words_filters (f ∷ filters) acc d =
        let next =
          meet acc (docs_with_all index f.field (sort_by by_rarity (toks_of index text f))) in
        elim (Bool-cases (is_empty (toks_of index text f))) [
          | inl y ↦ rw (y, vacuous f d y) (allowed-words_filters filters acc d)
          | inr n ↦
              let step : allowed (some next) d ≡ (allowed acc d && has_words d f) =
                allowed-meet acc _ d ∙ ap (λ b. allowed acc d && b) (contains-this f d n) in
              elim (Bool-cases (is_empty next)) [
                | inl y ↦
                    rw (n, y)
                      (nothing_left (allowed (some next) d) (allowed acc d) (has_words d f) _ step
                        (unfold allowed in none_in next d y))
                | inr m ↦
                    rw (n, m)
                      (allowed-words_filters filters (some next) d
                        ∙ ap (λ b. b && all_of (has_words d) filters) step
                        ∙ and_assoc (allowed acc d) (has_words d f) _)
              ]
        ]

    module _ (ids : List ℕ)
        (inside : (field t : List ℕ) → Within (keys (index.postings_for field t)) ids) where
      IsListOf-docs_with : (field t : List ℕ) → IsListOf ids (some (docs_with index field t))
      IsListOf-docs_with field t = (
        IsSetOf-insert_docs (index.postings_for field t) [] tt,
        Within-insert_docs ids (index.postings_for field t) [] (inside field t)
            (λ d y. absurd (unfold contains in ground arith)),
      )

      IsListOf-words_from :
          (field : List ℕ) (toks : List (ℕ × List ℕ)) (set : Option (List ℕ))
          → IsListOf ids set
          → IsListOf ids (words_from index field toks set)
      unfolding words_from
      IsListOf-words_from field [] set h = h
      IsListOf-words_from field ((df, t) ∷ toks) set h =
          let next = meet set (docs_with index field t) in
          let more =
            IsListOf-meet ids set (docs_with index field t) h (IsListOf-docs_with field t) in
          elim (Bool-cases (is_empty next)) [
            | inl y ↦ rw y more
            | inr n ↦ rw n (IsListOf-words_from field toks (some next) more)
          ]

      IsListOf-nothing : IsListOf ids (some [])
      IsListOf-nothing = (tt, λ d y. absurd (unfold contains in ground arith))

      IsListOf-or_empty : (o : Option (List ℕ)) → IsListOf ids o → IsListOf ids (some (or_empty o))
      IsListOf-or_empty none h = IsListOf-nothing
      IsListOf-or_empty (some set) h = h

      IsListOf-docs_with_all :
          (field : List ℕ) (toks : List (ℕ × List ℕ))
          → IsListOf ids (some (docs_with_all index field toks))
      IsListOf-docs_with_all field [] = IsListOf-nothing
      IsListOf-docs_with_all field ((df, t) ∷ toks) = elim (Bool-cases (df == 0)) [
        | inl z ↦ rw z IsListOf-nothing
        | inr n ↦ rw n (IsListOf-or_empty _ (IsListOf-words_from field ((df, t) ∷ toks) none tt))
      ]

      IsListOf-words_filters :
          (filters : List MatchAllFilter) (acc : Option (List ℕ))
          → IsListOf ids acc
          → IsListOf ids (words_filters index text filters acc)
      unfolding words_filters
      IsListOf-words_filters [] acc h = h
      IsListOf-words_filters (f ∷ filters) acc h =
          let this = docs_with_all index f.field (sort_by by_rarity (toks_of index text f)) in
          let next = meet acc this in
          let more =
            IsListOf-meet ids acc this h
              (IsListOf-docs_with_all f.field (sort_by by_rarity (toks_of index text f))) in
          elim (Bool-cases (is_empty (toks_of index text f))) [
            | inl y ↦ rw y (IsListOf-words_filters filters acc h)
            | inr n ↦ elim (Bool-cases (is_empty next)) [
              | inl y ↦ rw (n, y) more
              | inr m ↦ rw (n, m) (IsListOf-words_filters filters (some next) more)
            ]
          ]

      match_all_allow_list_lem :
          length ids ≡ index.num_docs
          → (filters : List MatchAllFilter) (d : ℕ) → contains ids d ≡ true
          → allowed (match_all_allow_list index text filters) d ≡ all_of (has_words d) filters
      unfolding match_all_allow_list allowed
      match_all_allow_list_lem same filters d y =
          allowed-drop_if_universal ids (words_filters index text filters none) index.num_docs d
            (IsListOf-words_filters filters none tt) same y
          ∙ allowed-words_filters filters none d

      -- If the postings of the index hold only documents of `ids`, these are as many as num_docs
      -- says, and a term that doc_freq counts in no document has no postings, then allow_list admits
      -- one of the documents exactly if every range filter and every word filter holds of it: a term
      -- in the range is in the field, and every word of the text is.
      pub allow_list_lem :
          length ids ≡ index.num_docs
          → (range_filters : List RangeFilter) (match_all : List MatchAllFilter) (d : ℕ)
          → contains ids d ≡ true
          → allowed (allow_list index text range_filters match_all) d
            ≡ (all_of (in_range index d) range_filters && all_of (has_words d) match_all)
      unfolding allow_list
      allow_list_lem same range_filters match_all d y =
          allowed-intersect_allow (range_allow_list index range_filters)
            (match_all_allow_list index text match_all) d
          ∙ rw
              (
                range_allow_list_lem index ids inside same range_filters d y,
                match_all_allow_list_lem same match_all d y,
              )
              refl
