-- ===== src/Query/Build/Top.antt =====
-- What the clauses at the top of a query ask of a document, and the base of a query that asks nothing.
use php_sdsearch.Prelude.{
  ℕ, ◌≡◌, refl, ap, ◌∙◌, arith, List, [], ◌∷◌, ◌++◌, none, some, Bool, true, false, not, ◌&&◌, ◌||◌,
  ltb,
}
use php_sdsearch.Prelude.{if◌then◌else◌, Bool-cases, inl, inr}
use php_sdsearch.Floats.{Floats}
use php_sdsearch.Index.{IndexReader}
use php_sdsearch.Score.{Similarity}
use php_sdsearch.Analysis.{Text}
use php_sdsearch.Maps.{is_some, is_empty, all_of, any_of}
use php_sdsearch.Query
use php_sdsearch.Query.Boolean.{Occur, should, must, must_not, same_occur, clauses_of}
use php_sdsearch.Query.Boolean.Found.{found, is_some-value_boolean}
use php_sdsearch.Query.Meaning.{Value, all_some, any_some, value, value_clauses}
use php_sdsearch.Query.Build.{clauses_from, any_positive_clause}

module _ {ℓ} {A : Type ℓ} (p : A → Bool) where
  pub any_of-append : (xs ys : List A) → any_of p (xs ++ ys) ≡ (any_of p xs || any_of p ys)
  unfolding any_of
  any_of-append [] ys = refl
  any_of-append (x ∷ xs) ys =
      ap (λ b. p x || b) (any_of-append xs ys) ∙ assoc (p x) (any_of p xs) (any_of p ys)
    where
      assoc : (a b c : Bool) → (a || (b || c)) ≡ ((a || b) || c)
      assoc true b c = refl
      assoc false b c = refl

  pub all_of-append : (xs ys : List A) → all_of p (xs ++ ys) ≡ (all_of p xs && all_of p ys)
  unfolding all_of
  all_of-append [] ys = refl
  all_of-append (x ∷ xs) ys =
      ap (λ b. p x && b) (all_of-append xs ys) ∙ assoc (p x) (all_of p xs) (all_of p ys)
    where
      assoc : (a b c : Bool) → (a && (b && c)) ≡ ((a && b) && c)
      assoc true b c = refl
      assoc false b c = refl

module _ (fl : Floats) (text : Text) (index : IndexReader fl.F32) (weights : List (List ℕ × fl.F32))
    (sim : Similarity) (d : ℕ) where
  open fl use {F32, single}

  abbrev pub Clause : Type 0
  Clause = Occur × Query.Query F32

  abbrev pub finds : Query.Query F32 → Bool
  finds q = is_some (value fl text index weights sim q d)

  -- The clause occurs as `o`; and its query finds the document.
  abbrev pub occurs : Occur → Clause → Bool
  occurs o c = same_occur c.0 o

  abbrev pub hits : Occur → Clause → Bool
  hits o c = same_occur c.0 o && finds c.1

  abbrev pub hits_if : Occur → Clause → Bool
  hits_if o c = not (same_occur c.0 o) || finds c.1

  abbrev parts : Occur → List Clause → List (Value F32)
  parts o xs = clauses_of o (value_clauses fl text index weights sim (clauses_from xs))

  any_some-parts :
      (o : Occur) (xs : List Clause) → any_some single (parts o xs) d ≡ any_of (hits o) xs
  unfolding clauses_from value clauses_of any_some any_of
  any_some-parts o [] = refl
  any_some-parts o ((p, q) ∷ xs) = elim (Bool-cases (same_occur p o)) [
    | inl y ↦ rw y (ap (λ b. finds q || b) (any_some-parts o xs))
    | inr n ↦ rw n (any_some-parts o xs)
  ]

  all_some-parts :
      (o : Occur) (xs : List Clause) → all_some single (parts o xs) d ≡ all_of (hits_if o) xs
  unfolding clauses_from value clauses_of all_some all_of
  all_some-parts o [] = refl
  all_some-parts o ((p, q) ∷ xs) = elim (Bool-cases (same_occur p o)) [
    | inl y ↦ rw y (ap (λ b. finds q && b) (all_some-parts o xs))
    | inr n ↦ rw n (all_some-parts o xs)
  ]

  is_empty-parts :
      (o : Occur) (xs : List Clause) → is_empty (parts o xs) ≡ not (any_of (occurs o) xs)
  unfolding clauses_from value clauses_of is_empty any_of
  is_empty-parts o [] = refl
  is_empty-parts o ((p, q) ∷ xs) = elim (Bool-cases (same_occur p o)) [
    | inl y ↦ rw y refl
    | inr n ↦ rw n (is_empty-parts o xs)
  ]

  -- What a list of clauses asks for.
  abbrev pub wanted : List Clause → Bool
  wanted xs =
      not (any_of (hits must_not) xs)
      && (if any_of (occurs must) xs then all_of (hits_if must) xs else any_of (hits should) xs)

  found_cases :
      (musts shoulds : List (Value F32))
      → found single musts shoulds d
        ≡ (if not (is_empty musts) then all_some single musts d else any_some single shoulds d)
  unfolding found is_empty
  found_cases [] shoulds = refl
  found_cases (v ∷ musts) shoulds = refl

  not_twice : (b : Bool) → not (not b) ≡ b
  not_twice true = refl
  not_twice false = refl

  pub finds-boolean : (xs : List Clause) → finds (Query.boolean (clauses_from xs)) ≡ wanted xs
  finds-boolean xs =
      unfold value in
      is_some-value_boolean single (value_clauses fl text index weights sim (clauses_from xs)) d
      ∙ rw
          (
            found_cases (parts must xs) (parts should xs),
            any_some-parts must_not xs,
            any_some-parts should xs,
            all_some-parts must xs,
            is_empty-parts must xs,
            not_twice (any_of (occurs must) xs),
          )
          refl

  -- The top of a query: with nothing positive, every live document.
  abbrev pub wanted_top : List Clause → Bool
  wanted_top xs =
      not (any_of (hits must_not) xs)
      && (if any_of (occurs must) xs
          then all_of (hits_if must) xs
          else if any_of (occurs should) xs
          then any_of (hits should) xs
          else ltb d index.total_docs && not (index.is_deleted d))

  abbrev pub based : List Clause → List Clause
  based top = if any_positive_clause top then top else top ++ ((must, Query.match_all) ∷ [])

  positive_clauses :
      (xs : List Clause)
      → any_positive_clause xs ≡ (any_of (occurs must) xs || any_of (occurs should) xs)
  unfolding any_positive_clause any_of
  positive_clauses [] = refl
  positive_clauses ((o, q) ∷ xs) = rw (positive_clauses xs) (ground arith)

  finds-match_all : finds Query.match_all ≡ (ltb d index.total_docs && not (index.is_deleted d))
  unfolding value
  finds-match_all = one_if (ltb d index.total_docs && not (index.is_deleted d))
    where
      one_if : (b : Bool) → is_some (if b then some (single.decimal 1 0) else none) ≡ b
      one_if true = refl
      one_if false = refl

  no_musts : (xs : List Clause) → any_of (occurs must) xs ≡ false → all_of (hits_if must) xs ≡ true
  unfolding any_of all_of
  no_musts [] h = refl
  no_musts ((must, q) ∷ xs) h = absurd (ground arith)
  no_musts ((should, q) ∷ xs) h = no_musts xs h
  no_musts ((must_not, q) ∷ xs) h = no_musts xs h

  abbrev base : List Clause
  base = (must, Query.match_all) ∷ []

  pub and_true : (b : Bool) → (b && true) ≡ b
  and_true true = refl
  and_true false = refl

  pub or_false : (b : Bool) → (b || false) ≡ b
  or_false true = refl
  or_false false = refl

  base_not_excluded : any_of (hits must_not) base ≡ false
  unfolding any_of
  base_not_excluded = refl

  base_required : any_of (occurs must) base ≡ true
  unfolding any_of
  base_required = refl

  base_live : all_of (hits_if must) base ≡ (ltb d index.total_docs && not (index.is_deleted d))
  unfolding all_of
  base_live = and_true (finds Query.match_all) ∙ finds-match_all

  -- The clause of the base, behind clauses that are not required.
  base_behind :
      (xs : List Clause)
      → any_of (occurs must) xs ≡ false
      → any_of (occurs should) xs ≡ false
      → wanted (xs ++ ((must, Query.match_all) ∷ [])) ≡ wanted_top xs
  base_behind xs m s =
      rw
        (
          any_of-append (hits must_not) xs ((must, Query.match_all) ∷ []),
          any_of-append (occurs must) xs ((must, Query.match_all) ∷ []),
          all_of-append (hits_if must) xs ((must, Query.match_all) ∷ []),
          m,
          s,
          no_musts xs m,
          base_not_excluded,
          base_required,
          base_live,
          or_false (any_of (hits must_not) xs),
        )
        refl

  pub wanted-based : (xs : List Clause) → wanted (based xs) ≡ wanted_top xs
  wanted-based xs = elim (Bool-cases (any_of (occurs must) xs)) [
    | inl m ↦
        let pos : any_positive_clause xs ≡ true = positive_clauses xs ∙ rw m refl in
        rw pos (rw m refl)
    | inr m ↦ elim (Bool-cases (any_of (occurs should) xs)) [
      | inl s ↦
          let pos : any_positive_clause xs ≡ true = positive_clauses xs ∙ rw (m, s) refl in
          rw pos (rw (m, s) refl)
      | inr s ↦
          let plain : any_positive_clause xs ≡ false = positive_clauses xs ∙ rw (m, s) refl in
          rw plain (base_behind xs m s)
    ]
  ]
