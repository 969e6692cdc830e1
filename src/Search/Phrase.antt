-- ===== src/Search/Phrase.antt =====
-- What `phrase_scores` gives one document, under an allow-list.
use php_sdsearch.Prelude.{
  ℕ, ◌≡◌, refl, sym, ap, ◌∙◌, arith, List, [], ◌∷◌, map, Option, none, some, Bool, true, false,
  ◌&&◌, ◌||◌,
}
use php_sdsearch.Prelude.{◌==◌, if◌then◌else◌, Bool-cases, inl, inr}
use php_sdsearch.Prelude.{◌+◌, add32, to_u32}
use mathlib.Core.Path.{ap₂}
use php_sdsearch.Floats.{Floats}
use php_sdsearch.Index.{IndexReader}
use php_sdsearch.Score.{Similarity}
use php_sdsearch.Maps.{any_of, keep, contains, get, insert, keys, is_some}
use php_sdsearch.Maps.Laws.{contains-keep, get-update, IsMap, IsMap-update, contains-keys}
use php_sdsearch.Search.Scores.{
  allowed, word_positions, positions_in, follow, any_start, retain_all, word_score, score_matches,
  phrase_of, phrase_scores,
}
use php_sdsearch.Search.Restrict.{Restricts, Left-Restricts}

module _ (fl : Floats) where
  open fl use {F32, single}
  open single use {sum}

  abbrev pub Word : Type 0
  Word = List (ℕ × List ℕ) × F32

  -- Every word is in the document.
  unfoldable pub all_in : ℕ → List Word → Bool
  all_in d [] = true
  all_in d (word ∷ words) = is_some (get d word.0) && all_in d words

  -- The words stand one behind the other, the first of them at position `q`.
  unfoldable pub in_a_row : ℕ → List (List ℕ) → Bool
  in_a_row q [] = true
  in_a_row q (ps ∷ rest) = contains ps q && in_a_row (add32 q 1) rest

  module _ (index : IndexReader F32) (sim : Similarity) (field : List ℕ) where
    contains-retain_all :
        (d : ℕ) (words : List Word) (cands : List ℕ)
        → contains (retain_all fl index sim field words cands) d
          ≡ (contains cands d && all_in d words)
    unfolding retain_all all_in
    contains-retain_all d [] cands = ground arith
    contains-retain_all d ((positions, idf) ∷ words) cands =
        contains-retain_all d words (keep (λ k. is_some (get k positions)) cands)
        ∙ ap (λ b. b && all_in d words) (contains-keep (λ k. is_some (get k positions)) cands d)
        ∙ ground arith

    abbrev sum_of : ℕ → List Word → F32
    sum_of d words = sum (map (word_score fl index sim field d) words)

    abbrev starts : ℕ → Word → List Word → Bool
    starts d first words =
        any_start fl index sim field d words (positions_in fl index sim field d first)

    -- One candidate.
    get-candidate :
        (first : Word) (words : List Word) (d k : ℕ) (acc : List (ℕ × F32))
        → get d (if starts k first words then insert k (sum_of k (first ∷ words)) acc else acc)
          ≡ (if k == d && starts d first words then some (sum_of d (first ∷ words)) else get d acc)
    unfolding insert
    get-candidate first words d k acc = elim (Bool-cases (k == d)) [
      | inl e ↦
          let same : k ≡ d = ground arith in
          elim (Bool-cases (starts k first words)) [
            | inl y ↦ rw y (
                get-update k d (λ o. sum_of k (first ∷ words)) acc
                ∙ rw (e, rw same at y) (ap (λ (n : ℕ). some (sum_of n (first ∷ words))) same))
            | inr n ↦ rw (n, e, rw same at n) refl
          ]
      | inr e ↦ elim (Bool-cases (starts k first words)) [
        | inl y ↦ rw y (get-update k d (λ o. sum_of k (first ∷ words)) acc ∙ rw e refl)
        | inr n ↦ rw (n, e) refl
      ]
    ]

    contains_cons :
        (k : ℕ) (cands : List ℕ) (d : ℕ) → contains (k ∷ cands) d ≡ (k == d || contains cands d)
    unfolding contains
    contains_cons k cands d = refl

    either :
        {A : Type 0} (a b c : Bool) (x y : A)
        → (if b && c then x else (if a && c then x else y)) ≡ (if (a || b) && c then x else y)
    either true true true x y = refl
    either true true false x y = refl
    either true false c x y = refl
    either false b c x y = refl

    get-score_matches :
        (first : Word) (words : List Word) (d : ℕ) (cands : List ℕ) (acc : List (ℕ × F32))
        → get d (score_matches fl index sim field first words cands acc) ≡ (
            if contains cands d && starts d first words
            then some (sum_of d (first ∷ words))
            else get d acc)
    unfolding score_matches
    get-score_matches first words d [] acc = unfold contains in refl
    get-score_matches first words d (k ∷ cands) acc =
        get-score_matches first words d cands _
        ∙ ap
            (λ o.
              if contains cands d && starts d first words
              then some (sum_of d (first ∷ words))
              else o)
            (get-candidate first words d k acc)
        ∙ either (k == d) (contains cands d) (starts d first words)
            (some (sum_of d (first ∷ words))) (get d acc)
        ∙ rw (contains_cons k cands d) refl

    IsMap-score_matches :
        (first : Word) (words : List Word) (cands : List ℕ) (acc : List (ℕ × F32))
        → IsMap acc
        → IsMap (score_matches fl index sim field first words cands acc)
    unfolding score_matches insert
    IsMap-score_matches first words [] acc h = h
    IsMap-score_matches first words (k ∷ cands) acc h = elim (Bool-cases (starts k first words)) [
      | inl y ↦ rw y (
          IsMap-score_matches first words cands _
            (IsMap-update k (λ o. sum_of k (first ∷ words)) acc h))
      | inr n ↦ rw n (IsMap-score_matches first words cands acc h)
    ]

    next_position : (p i : ℕ) → add32 p (to_u32 (i + 1)) ≡ add32 (add32 p (to_u32 i)) 1
    next_position p i = omega arith

    follow-in_a_row :
        (d p i : ℕ) (words : List Word)
        → follow fl index sim field d p i words
          ≡ in_a_row (add32 p (to_u32 i)) (map (positions_in fl index sim field d) words)
    unfolding follow in_a_row
    follow-in_a_row d p i [] = refl
    follow-in_a_row d p i (w ∷ words) =
        ap (λ b. contains (positions_in fl index sim field d w) (add32 p (to_u32 i)) && b)
          (follow-in_a_row d p (i + 1) words
            ∙ ap (λ (q : ℕ). in_a_row q (map (positions_in fl index sim field d) words))
                (next_position p i))

    -- The other words stand behind some position of the first.
    abbrev pub begins : ℕ → Word → List Word → Bool
    begins d first words =
        any_of (λ p. in_a_row (add32 p 1) (map (positions_in fl index sim field d) words))
          (positions_in fl index sim field d first)

    any_start-any_of :
        (d : ℕ) (words : List Word) (ps : List ℕ)
        → any_start fl index sim field d words ps
          ≡ any_of (λ p. in_a_row (add32 p 1) (map (positions_in fl index sim field d) words)) ps
    unfolding any_start any_of
    any_start-any_of d words [] = refl
    any_start-any_of d words (p ∷ ps) =
        ap₂ (λ a b. a || b) (follow-in_a_row d p 1 words) (any_start-any_of d words ps)

    -- A document that holds every word, and somewhere the phrase, has the sum of its words.
    unfoldable pub phrase_value : List Word → ℕ → Option F32
    unfolding all_in
    phrase_value [] d = none
    phrase_value (first ∷ words) d =
        if (is_some (get d first.0) && all_in d words) && begins d first words
        then some (sum_of d (first ∷ words))
        else none

    get-phrase_of :
        (words : List Word) (r : Option (List ℕ)) (d : ℕ)
        → get d (phrase_of fl index sim field words r)
          ≡ (if allowed r d then phrase_value words d else none)
    unfolding phrase_value get
    get-phrase_of [] r d = elim (Bool-cases (allowed r d)) [ inl y ↦ rw y refl | inr n ↦ rw n refl ]
    get-phrase_of (first ∷ words) r d =
        get-score_matches first words d
          (retain_all fl index sim field words (keep (allowed r) (keys first.0))) []
        ∙ rw
            (
              contains-retain_all d words (keep (allowed r) (keys first.0)),
              contains-keep (allowed r) (keys first.0) d,
              contains-keys first.0 d,
              any_start-any_of d words (positions_in fl index sim field d first),
            )
            (elim (Bool-cases (allowed r d)) [
              | inl y ↦ rw y (
                  ap
                    (λ b.
                      if (b && all_in d words) && begins d first words
                      then some (sum_of d (first ∷ words))
                      else none)
                    (and_true (is_some (get d first.0))))
              | inr n ↦ rw n (
                  ap
                    (λ b.
                      if (b && all_in d words) && begins d first words
                      then some (sum_of d (first ∷ words))
                      else none)
                    (and_false (is_some (get d first.0))))
            ])
      where
        and_true : (b : Bool) → (b && true) ≡ b
        and_true true = refl
        and_true false = refl

        and_false : (b : Bool) → (b && false) ≡ false
        and_false true = refl
        and_false false = refl

    IsMap-phrase_of :
        (words : List Word) (r : Option (List ℕ)) → IsMap (phrase_of fl index sim field words r)
    IsMap-phrase_of [] r = tt
    IsMap-phrase_of (first ∷ words) r =
        IsMap-score_matches first words
          (retain_all fl index sim field words (keep (allowed r) (keys first.0))) [] tt

    -- Under any allow-list, phrase_scores gives a document of the list a score exactly if it holds
    -- every word and, behind some position of the first, the others one position after the other;
    -- the score is the sum of the scores of the words. No other document has a score.
    pub get-phrase_scores :
        (terms : List (List ℕ)) (accent_insensitive : Bool) (r : Option (List ℕ)) (d : ℕ)
        → get d (phrase_scores fl index sim field terms accent_insensitive r) ≡ (
            if allowed r d
            then phrase_value (map (word_positions fl index sim field accent_insensitive) terms) d
            else none)
    unfolding phrase_scores
    get-phrase_scores terms ai r d = get-phrase_of _ r d

    pub phrase_scores-Restricts :
        (terms : List (List ℕ)) (accent_insensitive : Bool)
        → Restricts (phrase_scores fl index sim field terms accent_insensitive)
    unfolding phrase_scores
    phrase_scores-Restricts terms ai =
        let words = map (word_positions fl index sim field ai) terms in
        Left-Restricts (phrase_of fl index sim field words) (λ r. (
          (IsMap-phrase_of words r, IsMap-phrase_of words none),
          λ d.
              get-phrase_of words r d
              ∙ ap (λ o. if allowed r d then o else none)
                  (unfold allowed in sym (get-phrase_of words none d)),
        ))
