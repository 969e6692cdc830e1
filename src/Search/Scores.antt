-- ===== src/Search/Scores.antt =====
-- sdsearch-core/src/search.rs: the scores of the leaves, without order and without stored fields.
use php_sdsearch.Prelude.{
  ℕ, ◌+◌, List, [], ◌∷◌, ◌++◌, map, length, Option, none, some, Bool, true, false, ◌&&◌, ◌||◌,
}
use php_sdsearch.Prelude.{add64, add32, to_u32, if◌then◌else◌}
use php_sdsearch.Floats.{Floats}
use php_sdsearch.Index.{IndexReader}
use php_sdsearch.Score.{Similarity, similarity_idf, score}
use php_sdsearch.Maps.{keep, contains, get, update, insert, keys, unwrap_or, is_some}
use php_sdsearch.Search.Terms.{accent_variant_terms}

-- `restrict.is_none_or(|r| r.contains(d))`
unfoldable pub allowed : Option (List ℕ) → ℕ → Bool
allowed none d = true
allowed (some r) d = contains r d

module _ (fl : Floats) where
  open fl use {F32, single}
  open single use {decimal, of_nat, add, mul, sum}

  -- `*acc.entry(d).or_insert(0.0) += s`
  unfoldable pub add_to : ℕ → F32 → List (ℕ × F32) → List (ℕ × F32)
  add_to d s acc = update d (λ o. add (unwrap_or o (decimal 0 0)) s) acc

  -- `*scored.entry(id).or_insert(0.0) += s * w` for each entry
  unfoldable pub add_weighted : F32 → List (ℕ × F32) → List (ℕ × F32) → List (ℕ × F32)
  unfolding add_to
  add_weighted w [] scored = scored
  add_weighted w ((d, s) ∷ entries) scored = add_weighted w entries (add_to d (mul s w) scored)

  module _ (index : IndexReader F32) (sim : Similarity) (field : List ℕ) where
    abbrev pub idf_of : ℕ → F32
    idf_of df = similarity_idf single sim (of_nat index.total_docs) (of_nat df)

    abbrev pub score_doc : F32 → F32 → ℕ × ℕ → ℕ × F32
    score_doc idf avg (d, tf) = (d, score single sim idf tf (index.field_len d field) avg)

    unfoldable pub term_scores : List ℕ → Option (List ℕ) → List (ℕ × F32)
    unfolding allowed
    term_scores term restrict =
        let idf = idf_of (index.doc_freq field term) in
        let avg = index.avg_field_len field in
        map (score_doc idf avg) (keep (λ p. allowed restrict p.0) (index.postings_for field term))

    -- The loop over the postings of one term.
    unfoldable pub add_postings :
        F32 → F32 → Option (List ℕ) → List (ℕ × ℕ) → List (ℕ × F32) → List (ℕ × F32)
    unfolding allowed add_to
    add_postings idf avg restrict [] scored = scored
    add_postings idf avg restrict ((d, tf) ∷ postings) scored =
        add_postings idf avg restrict postings (
          if allowed restrict d
          then add_to d (score single sim idf tf (index.field_len d field) avg) scored
          else scored)

    unfoldable pub union_from : List (List ℕ) → Option (List ℕ) → List (ℕ × F32) → List (ℕ × F32)
    unfolding add_postings
    union_from [] restrict scored = scored
    union_from (term ∷ terms) restrict scored = union_from terms restrict (
        add_postings (idf_of (index.doc_freq field term)) (index.avg_field_len field) restrict
          (index.postings_for field term) scored)

    unfoldable pub union_scores : List (List ℕ) → Option (List ℕ) → List (ℕ × F32)
    unfolding union_from
    union_scores terms restrict = union_from terms restrict []

    unfoldable pub fuzzy_from :
        List (List ℕ × F32) → Option (List ℕ) → List (ℕ × F32) → List (ℕ × F32)
    unfolding add_weighted term_scores
    fuzzy_from [] restrict scored = scored
    fuzzy_from ((matched, boost) ∷ terms) restrict scored =
        fuzzy_from terms restrict (add_weighted boost (term_scores matched restrict) scored)

    unfoldable pub fuzzy_scores : List (List ℕ × F32) → Option (List ℕ) → List (ℕ × F32)
    unfolding fuzzy_from
    fuzzy_scores terms restrict = fuzzy_from terms restrict []

    -- `merged.entry(doc).or_default().extend(pos)` for each entry
    unfoldable pub extend_positions : List (ℕ × List ℕ) → List (ℕ × List ℕ) → List (ℕ × List ℕ)
    extend_positions [] merged = merged
    extend_positions ((d, pos) ∷ entries) merged =
        extend_positions entries (update d (λ o. unwrap_or o [] ++ pos) merged)

    unfoldable pub merge_terms : List (List ℕ) → List (ℕ × List ℕ) → List (ℕ × List ℕ)
    unfolding extend_positions
    merge_terms [] merged = merged
    merge_terms (t ∷ terms) merged =
        merge_terms terms (extend_positions (index.positions_all field t) merged)

    -- `df += index.doc_freq(field, t)` for each term, on a usize
    unfoldable pub pooled_from : List (List ℕ) → ℕ → ℕ
    pooled_from [] df = df
    pooled_from (t ∷ terms) df = pooled_from terms (add64 df (index.doc_freq field t))

    unfoldable pub pooled_freq : List (List ℕ) → ℕ
    unfolding pooled_from
    pooled_freq terms = pooled_from terms 0

    unfoldable pub merged_positions : List (List ℕ) → List (ℕ × List ℕ) × F32
    unfolding merge_terms pooled_freq
    merged_positions terms = (merge_terms terms [], idf_of (pooled_freq terms))

    abbrev pub word_positions : Bool → List ℕ → List (ℕ × List ℕ) × F32
    word_positions accent_insensitive t =
        merged_positions (if accent_insensitive then accent_variant_terms index field t else t ∷ [])

    -- `positions.get(&doc).unwrap_or(&empty)`
    abbrev pub positions_in : ℕ → List (ℕ × List ℕ) × F32 → List ℕ
    positions_in doc (positions, idf) = unwrap_or (get doc positions) []

    -- Whether the words follow position `p`, the first of them `i` behind it.
    unfoldable pub follow : ℕ → ℕ → ℕ → List (List (ℕ × List ℕ) × F32) → Bool
    follow doc p i [] = true
    follow doc p i (word ∷ words) =
        contains (positions_in doc word) (add32 p (to_u32 i)) && follow doc p (i + 1) words

    unfoldable pub any_start : ℕ → List (List (ℕ × List ℕ) × F32) → List ℕ → Bool
    unfolding follow
    any_start doc words [] = false
    any_start doc words (p ∷ ps) = follow doc p 1 words || any_start doc words ps

    -- The candidates: `retain` for each further word.
    unfoldable pub retain_all : List (List (ℕ × List ℕ) × F32) → List ℕ → List ℕ
    retain_all [] candidates = candidates
    retain_all ((positions, idf) ∷ words) candidates =
        retain_all words (keep (λ d. is_some (get d positions)) candidates)

    abbrev pub word_score : ℕ → List (ℕ × List ℕ) × F32 → F32
    word_score doc (positions, idf) =
        score single sim idf (to_u32 (length (unwrap_or (get doc positions) [])))
          (index.field_len doc field) (index.avg_field_len field)

    -- The loop over the candidates.
    unfoldable pub score_matches :
        List (ℕ × List ℕ) × F32
        → List (List (ℕ × List ℕ) × F32)
        → List ℕ
        → List (ℕ × F32)
        → List (ℕ × F32)
    unfolding any_start
    score_matches first words [] scored = scored
    score_matches first words (doc ∷ candidates) scored = score_matches first words candidates (
        if any_start doc words (positions_in doc first)
        then insert doc (sum (map (word_score doc) (first ∷ words))) scored
        else scored)

    abbrev pub phrase_of : List (List (ℕ × List ℕ) × F32) → Option (List ℕ) → List (ℕ × F32)
    phrase_of [] restrict = []
    phrase_of (first ∷ words) restrict =
        score_matches first words (retain_all words (keep (allowed restrict) (keys first.0))) []

    unfoldable pub phrase_scores : List (List ℕ) → Bool → Option (List ℕ) → List (ℕ × F32)
    unfolding retain_all score_matches merged_positions allowed
    phrase_scores terms accent_insensitive restrict =
        phrase_of (map (word_positions accent_insensitive) terms) restrict
