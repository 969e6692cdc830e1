-- ===== src/Search/Restrict.antt =====
-- The allow-list of a leaf only leaves documents out: the scores of the others are the same.
use php_sdsearch.Prelude.{
  ℕ, ◌≡◌, refl, sym, ap, ◌∙◌, arith, List, [], ◌∷◌, map, Option, none, some, Bool, true, false,
}
use php_sdsearch.Prelude.{◌==◌, if◌then◌else◌, Bool-cases, inl, inr}
use php_sdsearch.Floats.{Floats}
use php_sdsearch.Index.{IndexReader}
use php_sdsearch.Score.{Similarity}
use php_sdsearch.Maps.{keep, get, update, unwrap_or}
use php_sdsearch.Maps.Laws.{get-update, IsMap, IsMap-update, at, at-IsMap, list_of}
use php_sdsearch.Search.Scores.{
  allowed, add_to, add_weighted, score_doc, term_scores, add_postings, union_from, union_scores,
  fuzzy_from, fuzzy_scores,
}

-- What is left of `b` under the allow-list `r`.
abbrev pub Left {ℓ} : {V : Type ℓ} → Option (List ℕ) → List (ℕ × V) → List (ℕ × V) → Type ℓ
Left r a b = (IsMap a × IsMap b) × ((d : ℕ) → get d a ≡ (if allowed r d then get d b else none))

-- The entries of each document that is allowed.
abbrev pub Restricts {ℓ} : {V : Type ℓ} → (Option (List ℕ) → List (ℕ × V)) → Type ℓ
Restricts scores =
    (r : Option (List ℕ)) (d : ℕ)
    → at d (scores r) ≡ (if allowed r d then at d (scores none) else [])

module _ {ℓ} {V : Type ℓ} where
  if_none : (b : Bool) → Path (Option V) none (if b then none else none)
  if_none true = refl
  if_none false = refl

  pub Left-empty : (r : Option (List ℕ)) → Left {V = V} r [] []
  unfolding get
  Left-empty r = ((tt, tt), λ d. if_none (allowed r d))

  -- A change of one document, which the list leaves out or not.
  pub Left-update :
      (r : Option (List ℕ)) (k : ℕ) (f : Option V → V) (a b : List (ℕ × V))
      → Left r a b
      → Left r (if allowed r k then update k f a else a) (update k f b)
  Left-update r k f a b h = elim (Bool-cases (allowed r k)) [
    | inl y ↦ rw y (
      (IsMap-update k f a h.0.0, IsMap-update k f b h.0.1),
      λ d.
          rw (get-update k d f a, get-update k d f b, h.1 d)
            (elim (Bool-cases (k == d)) [
              | inl e ↦ let same : k ≡ d = ground arith in rw (e, rw same at y) refl
              | inr e ↦ rw e refl
            ]),
    )
    | inr n ↦ rw n (
      (h.0.0, IsMap-update k f b h.0.1),
      λ d.
          rw (get-update k d f b, h.1 d)
            (elim (Bool-cases (k == d)) [
              | inl e ↦ let same : k ≡ d = ground arith in rw (rw same at n) refl
              | inr e ↦ rw e refl
            ]),
    )
  ]

  pub Left-Restricts :
      (scores : Option (List ℕ) → List (ℕ × V))
      → ((r : Option (List ℕ)) → Left r (scores r) (scores none))
      → Restricts scores
  Left-Restricts scores h r d =
      at-IsMap d (scores r) (h r).0.0 ∙ ap list_of ((h r).1 d) ∙ elim (Bool-cases (allowed r d)) [
        | inl y ↦ rw y (sym (at-IsMap d (scores none) (h r).0.1))
        | inr n ↦ rw n refl
      ]

module _ (fl : Floats) where
  open fl use {F32, single}
  open single use {decimal, add, mul}

  -- The values that are added to the score of a document.
  unfoldable pub add_values : F32 → List F32 → Option F32 → Option F32
  add_values w [] o = o
  add_values w (s ∷ values) o =
      add_values w values (some (add (unwrap_or o (decimal 0 0)) (mul s w)))

  pub get-add_weighted :
      (w : F32) (d : ℕ) (m acc : List (ℕ × F32))
      → get d (add_weighted fl w m acc) ≡ add_values w (at d m) (get d acc)
  unfolding add_weighted add_values at
  get-add_weighted w d [] acc = refl
  get-add_weighted w d ((k, s) ∷ m) acc =
      get-add_weighted w d m (add_to fl k (mul s w) acc)
      ∙ ap (add_values w (at d m))
          (unfold add_to in get-update k d (λ o. add (unwrap_or o (decimal 0 0)) (mul s w)) acc)
      ∙ elim (Bool-cases (k == d)) [ inl e ↦ rw e refl | inr e ↦ rw e refl ]

  pub IsMap-add_weighted :
      (w : F32) (m acc : List (ℕ × F32)) → IsMap acc → IsMap (add_weighted fl w m acc)
  unfolding add_weighted add_to
  IsMap-add_weighted w [] acc h = h
  IsMap-add_weighted w ((k, s) ∷ m) acc h = IsMap-add_weighted w m _ (IsMap-update k _ acc h)

  pub Left-add_weighted :
      (scores : Option (List ℕ) → List (ℕ × F32)) (r : Option (List ℕ)) (w : F32)
      (a b : List (ℕ × F32))
      → Restricts scores
      → Left r a b
      → Left r (add_weighted fl w (scores r) a) (add_weighted fl w (scores none) b)
  Left-add_weighted scores r w a b rs h = (
    (IsMap-add_weighted w (scores r) a h.0.0, IsMap-add_weighted w (scores none) b h.0.1),
    λ d.
        rw (get-add_weighted w d (scores r) a, get-add_weighted w d (scores none) b, rs r d, h.1 d)
          (elim (Bool-cases (allowed r d)) [
            | inl y ↦ rw y refl
            | inr n ↦ rw n (unfold add_values in refl)
          ]),
  )

  module _ (index : IndexReader F32) (sim : Similarity) (field : List ℕ) where
    postings_left :
        (idf avg : F32) (r : Option (List ℕ)) (d : ℕ) (ps : List (ℕ × ℕ))
        → at d (map (score_doc fl index sim field idf avg) (keep (λ p. allowed r p.0) ps)) ≡ (
            if allowed r d
            then at d (map (score_doc fl index sim field idf avg) (keep (λ p. allowed none p.0) ps))
            else [])
    unfolding keep at allowed
    postings_left idf avg r d [] = elim (Bool-cases (allowed r d)) [
      | inl y ↦ rw y refl
      | inr n ↦ rw n refl
    ]
    postings_left idf avg r d ((k, tf) ∷ ps) = elim (Bool-cases (k == d)) [
      | inl e ↦
          let same : k ≡ d = ground arith in
          elim (Bool-cases (allowed r k)) [
            | inl y ↦ rw (y, e, postings_left idf avg r d ps, rw same at y) refl
            | inr n ↦ rw (n, postings_left idf avg r d ps, rw same at n) refl
          ]
      | inr e ↦ elim (Bool-cases (allowed r k)) [
        | inl y ↦ rw (y, e) (postings_left idf avg r d ps)
        | inr n ↦ rw (n, e) (postings_left idf avg r d ps)
      ]
    ]

    pub term_scores-Restricts : (term : List ℕ) → Restricts (term_scores fl index sim field term)
    unfolding term_scores
    term_scores-Restricts term r d = postings_left _ _ r d (index.postings_for field term)

    pub Left-add_postings :
        (idf avg : F32) (r : Option (List ℕ)) (ps : List (ℕ × ℕ)) (a b : List (ℕ × F32))
        → Left r a b
        → Left r
            (add_postings fl index sim field idf avg r ps a)
            (add_postings fl index sim field idf avg none ps b)
    unfolding add_postings add_to
    Left-add_postings idf avg r [] a b h = h
    Left-add_postings idf avg r ((k, tf) ∷ ps) a b h =
        Left-add_postings idf avg r ps _ _ (Left-update r k _ a b h)

    pub Left-union_from :
        (terms : List (List ℕ)) (r : Option (List ℕ)) (a b : List (ℕ × F32))
        → Left r a b
        → Left r
            (union_from fl index sim field terms r a)
            (union_from fl index sim field terms none b)
    unfolding union_from
    Left-union_from [] r a b h = h
    Left-union_from (t ∷ terms) r a b h =
        Left-union_from terms r _ _ (Left-add_postings _ _ r (index.postings_for field t) a b h)

    pub union_scores-Restricts :
        (terms : List (List ℕ)) → Restricts (union_scores fl index sim field terms)
    unfolding union_scores
    union_scores-Restricts terms =
        Left-Restricts (union_scores fl index sim field terms)
          (λ r. Left-union_from terms r [] [] (Left-empty r))

    pub Left-fuzzy_from :
        (terms : List (List ℕ × F32)) (r : Option (List ℕ)) (a b : List (ℕ × F32))
        → Left r a b
        → Left r
            (fuzzy_from fl index sim field terms r a)
            (fuzzy_from fl index sim field terms none b)
    unfolding fuzzy_from
    Left-fuzzy_from [] r a b h = h
    Left-fuzzy_from ((t, boost) ∷ terms) r a b h = Left-fuzzy_from terms r _ _ (
        Left-add_weighted (term_scores fl index sim field t) r boost a b (term_scores-Restricts t)
          h)

    pub fuzzy_scores-Restricts :
        (terms : List (List ℕ × F32)) → Restricts (fuzzy_scores fl index sim field terms)
    unfolding fuzzy_scores
    fuzzy_scores-Restricts terms =
        Left-Restricts (fuzzy_scores fl index sim field terms)
          (λ r. Left-fuzzy_from terms r [] [] (Left-empty r))
