-- ===== src/Query/Build/Value.antt =====
-- Which documents the query of some parameters finds, if there is no tree.
use php_sdsearch.Prelude.{
  ℕ, ◌≡◌, refl, ap, ◌∙◌, List, [], ◌∷◌, ◌++◌, map, none, some, Bool, true, false, not, ◌&&◌, ◌||◌,
  ltb,
}
use php_sdsearch.Prelude.{if◌then◌else◌, Bool-cases, inl, inr}
use mathlib.Core.Path.{ap₂}
use php_sdsearch.Floats.{Floats}
use php_sdsearch.Index.{IndexReader}
use php_sdsearch.Score.{Similarity}
use php_sdsearch.Analysis.{Text}
use php_sdsearch.Maps.{is_some, is_empty, all_of, any_of}
use php_sdsearch.Query
use php_sdsearch.Query.Boolean.{Occur, should, must, must_not, same_occur}
use php_sdsearch.Query.Meaning.{value}
use php_sdsearch.Query.Tree.{Checked, When, accepted, rejected}
use php_sdsearch.Query.Build.{
  WhereGroup, InGroup, QueryParams, key_suffix, key_field_in, clauses_from, term_of, group_query,
  after, blank, where_clauses, in_clauses, in_clause, text_subquery, first_clauses, with_base,
  build_query,
}
use php_sdsearch.Query.Build.Top

module _ (fl : Floats) (text : Text) (index : IndexReader fl.F32) (weights : List (List ℕ × fl.F32))
    (sim : Similarity) (d : ℕ) where
  open fl use {F32, single}

  abbrev Clause : Type 0
  Clause = Occur × Query.Query F32

  abbrev pub finds : Query.Query F32 → Bool
  finds = Top.finds fl text index weights sim d

  abbrev occurs : Occur → Clause → Bool
  occurs = Top.occurs fl text index weights sim d

  abbrev hits : Occur → Clause → Bool
  hits = Top.hits fl text index weights sim d

  abbrev hits_if : Occur → Clause → Bool
  hits_if = Top.hits_if fl text index weights sim d

  abbrev wanted_top : List Clause → Bool
  wanted_top = Top.wanted_top fl text index weights sim d

  When-after :
      (P Q R : List Clause → Type 0) (a b : Checked (List Clause))
      → When P a
      → When Q b
      → ((xs ys : List Clause) → P xs → Q ys → R (xs ++ ys))
      → When R (after a b)
  When-after P Q R (rejected e) b h k f = tt
  When-after P Q R (accepted xs) (rejected e) h k f = tt
  When-after P Q R (accepted xs) (accepted ys) h k f = f xs ys h k

  -- Clauses that are all optional, and whether one of them finds the document.
  abbrev IsShoulds : Bool → List Clause → Type 0
  IsShoulds b xs =
      (any_of (occurs must) xs ≡ false)
      × ((any_of (hits must_not) xs ≡ false) × (any_of (hits should) xs ≡ b))

  abbrev has_value : List ℕ → List ℕ → Bool
  has_value field v = finds (Query.term (some field) v)

  IsShoulds-terms :
      (field : List ℕ) (vs : List (List ℕ))
      → IsShoulds (any_of (has_value field) vs) (map (term_of field) vs)
  unfolding any_of
  IsShoulds-terms field [] = (refl, (refl, refl))
  IsShoulds-terms field (v ∷ vs) =
      let h = IsShoulds-terms field vs in (h.0, (h.1.0, ap (λ b. has_value field v || b) h.1.1))

  IsShoulds-append :
      (a b : Bool) (xs ys : List Clause)
      → IsShoulds a xs
      → IsShoulds b ys
      → IsShoulds (a || b) (xs ++ ys)
  IsShoulds-append a b xs ys h k = (
    Top.any_of-append (occurs must) xs ys ∙ rw (h.0, k.0) refl,
    (
      Top.any_of-append (hits must_not) xs ys ∙ rw (h.1.0, k.1.0) refl,
      Top.any_of-append (hits should) xs ys ∙ rw (h.1.1, k.1.1) refl,
    ),
  )

  finds-shoulds :
      (b : Bool) (xs : List Clause) → IsShoulds b xs → finds (Query.boolean (clauses_from xs)) ≡ b
  finds-shoulds b xs h =
      Top.finds-boolean fl text index weights sim d xs ∙ rw (h.0, h.1.0, h.1.1) refl

  -- Some value of the group is in its key field.
  abbrev pub in_where_group : WhereGroup → Bool
  in_where_group wg = any_of (has_value (wg.field ++ key_suffix)) wg.values

  abbrev pub in_in_group : InGroup → Bool
  in_in_group ig = any_of (has_value (key_field_in ig.field)) ig.values

  abbrev group_clause : WhereGroup → Clause
  group_clause wg = (wg.occur, group_query wg)

  finds-group_query : (wg : WhereGroup) → finds (group_query wg) ≡ in_where_group wg
  finds-group_query wg =
      finds-shoulds (in_where_group wg) (map (term_of (wg.field ++ key_suffix)) wg.values)
        (IsShoulds-terms (wg.field ++ key_suffix) wg.values)

  When-where_clauses :
      (groups : List WhereGroup)
      → When (λ xs. xs ≡ map group_clause groups) (where_clauses single text groups)
  unfolding where_clauses
  When-where_clauses [] = refl
  When-where_clauses (wg ∷ groups) = elim (Bool-cases (blank single text wg.field)) [
    | inl y ↦ rw y tt
    | inr n ↦ rw n (
        When-after (λ xs. xs ≡ group_clause wg ∷ []) (λ xs. xs ≡ map group_clause groups)
          (λ xs. xs ≡ map group_clause (wg ∷ groups)) (accepted (group_clause wg ∷ []))
          (where_clauses single text groups) refl (When-where_clauses groups)
          (λ xs ys h k. ap₂ (λ a b. a ++ b) h k))
  ]

  When-in_clauses :
      (groups : List InGroup)
      → When (IsShoulds (any_of in_in_group groups)) (in_clauses single text groups)
  unfolding in_clauses any_of
  When-in_clauses [] = (refl, (refl, refl))
  When-in_clauses (ig ∷ groups) = elim (Bool-cases (blank single text ig.field)) [
    | inl y ↦ rw y tt
    | inr n ↦ rw n (
        When-after (IsShoulds (in_in_group ig)) (IsShoulds (any_of in_in_group groups))
          (IsShoulds (in_in_group ig || any_of in_in_group groups))
          (accepted (map (term_of (key_field_in ig.field)) ig.values))
          (in_clauses single text groups) (IsShoulds-terms (key_field_in ig.field) ig.values)
          (When-in_clauses groups) (IsShoulds-append (in_in_group ig) (any_of in_in_group groups)))
  ]

  -- One required clause or none: `b` says that there is one, `c` whether it finds the document.
  abbrev IsMust : Bool → Bool → List Clause → Type 0
  IsMust b c xs =
      ((any_of (hits must_not) xs ≡ false) × (any_of (occurs must) xs ≡ b))
      × ((all_of (hits_if must) xs ≡ (not b || c))
          × ((any_of (occurs should) xs ≡ false) × (any_of (hits should) xs ≡ false)))

  IsMust-none : (c : Bool) → IsMust false c []
  unfolding any_of all_of
  IsMust-none c = ((refl, refl), (refl, (refl, refl)))

  IsMust-one : (c : Bool) (q : Query.Query F32) → finds q ≡ c → IsMust true c ((must, q) ∷ [])
  unfolding any_of all_of
  IsMust-one c q h =
      ((refl, refl), (Top.and_true fl text index weights sim d (finds q) ∙ h, (refl, refl)))

  When-in_clause :
      (groups : List InGroup) (c : Checked (List Clause))
      → When (IsShoulds (any_of in_in_group groups)) c
      → When
          (IsMust (not (is_empty groups)) (any_of in_in_group groups))
          (in_clause single text groups c)
  unfolding is_empty
  When-in_clause [] (accepted xs) h = IsMust-none (any_of in_in_group [])
  When-in_clause (ig ∷ groups) (accepted xs) h =
      IsMust-one _ (Query.boolean (clauses_from xs)) (finds-shoulds _ xs h)
  When-in_clause groups (rejected e) h = tt

  -- A group that occurs as `o`; and one of its values is there.
  abbrev pub group_is : Occur → WhereGroup → Bool
  group_is o wg = same_occur wg.occur o

  abbrev pub group_hits : Occur → WhereGroup → Bool
  group_hits o wg = same_occur wg.occur o && in_where_group wg

  abbrev pub group_hits_if : Occur → WhereGroup → Bool
  group_hits_if o wg = not (same_occur wg.occur o) || in_where_group wg

  any_hits-groups :
      (o : Occur) (groups : List WhereGroup)
      → any_of (hits o) (map group_clause groups) ≡ any_of (group_hits o) groups
  unfolding any_of
  any_hits-groups o [] = refl
  any_hits-groups o (wg ∷ groups) =
      ap₂ (λ a b. (same_occur wg.occur o && a) || b) (finds-group_query wg)
        (any_hits-groups o groups)

  any_occurs-groups :
      (o : Occur) (groups : List WhereGroup)
      → any_of (occurs o) (map group_clause groups) ≡ any_of (group_is o) groups
  unfolding any_of
  any_occurs-groups o [] = refl
  any_occurs-groups o (wg ∷ groups) =
      ap (λ b. same_occur wg.occur o || b) (any_occurs-groups o groups)

  all_hits-groups :
      (groups : List WhereGroup)
      → all_of (hits_if must) (map group_clause groups) ≡ all_of (group_hits_if must) groups
  unfolding all_of
  all_hits-groups [] = refl
  all_hits-groups (wg ∷ groups) =
      ap₂ (λ a b. (not (same_occur wg.occur must) || a) && b) (finds-group_query wg)
        (all_hits-groups groups)

  -- What the parameters ask of the document, if there is no tree: no excluded group holds; and where
  -- there is a text, a required group, or an in group, the text is found, all required groups hold, and
  -- some in group does; else some optional group holds, if there is one; else the document is alive.
  abbrev pub meant : Bool → Bool → List WhereGroup → List InGroup → Bool
  meant has_text in_text groups in_groups =
      not (any_of (group_hits must_not) groups)
      && (if has_text || (any_of (group_is must) groups || not (is_empty in_groups))
          then (not has_text || in_text)
            && (all_of (group_hits_if must) groups
                && (not (not (is_empty in_groups)) || any_of in_in_group in_groups))
          else if any_of (group_is should) groups
          then any_of (group_hits should) groups
          else ltb d index.total_docs && not (index.is_deleted d))

  module _ (has_text in_text : Bool) (groups : List WhereGroup) (in_groups : List InGroup)
      (first last : List Clause) (f : IsMust has_text in_text first)
      (l : IsMust (not (is_empty in_groups)) (any_of in_in_group in_groups) last) where
    abbrev middle : List Clause
    middle = map group_clause groups

    three :
        (q : Clause → Bool)
        → any_of q (first ++ (middle ++ last))
          ≡ (any_of q first || (any_of q middle || any_of q last))
    three q =
        Top.any_of-append q first (middle ++ last)
        ∙ ap (λ b. any_of q first || b) (Top.any_of-append q middle last)

    three_all :
        (q : Clause → Bool)
        → all_of q (first ++ (middle ++ last))
          ≡ (all_of q first && (all_of q middle && all_of q last))
    three_all q =
        Top.all_of-append q first (middle ++ last)
        ∙ ap (λ b. all_of q first && b) (Top.all_of-append q middle last)

    top_excluded :
        any_of (hits must_not) (first ++ (middle ++ last)) ≡ any_of (group_hits must_not) groups
    top_excluded =
        three (hits must_not)
        ∙ rw (f.0.0, l.0.0, any_hits-groups must_not groups)
            (Top.or_false fl text index weights sim d _)

    top_required :
        any_of (occurs must) (first ++ (middle ++ last))
        ≡ (has_text || (any_of (group_is must) groups || not (is_empty in_groups)))
    top_required = three (occurs must) ∙ rw (f.0.1, l.0.1, any_occurs-groups must groups) refl

    top_all : all_of (hits_if must) (first ++ (middle ++ last)) ≡ (
        (not has_text || in_text)
        && (all_of (group_hits_if must) groups
            && (not (not (is_empty in_groups)) || any_of in_in_group in_groups)))
    top_all = three_all (hits_if must) ∙ rw (f.1.0, l.1.0, all_hits-groups groups) refl

    top_optional :
        any_of (occurs should) (first ++ (middle ++ last)) ≡ any_of (group_is should) groups
    top_optional =
        three (occurs should)
        ∙ rw (f.1.1.0, l.1.1.0, any_occurs-groups should groups)
            (Top.or_false fl text index weights sim d _)

    top_shoulds :
        any_of (hits should) (first ++ (middle ++ last)) ≡ any_of (group_hits should) groups
    top_shoulds =
        three (hits should)
        ∙ rw (f.1.1.1, l.1.1.1, any_hits-groups should groups)
            (Top.or_false fl text index weights sim d _)

    wanted_top-meant :
        wanted_top (first ++ (middle ++ last)) ≡ meant has_text in_text groups in_groups
    wanted_top-meant = rw (top_excluded, top_required, top_all, top_optional, top_shoulds) refl

  module _ (global : List ℕ → List (List ℕ)) where
    IsMust-first :
        (p : QueryParams F32)
        → When
            (IsMust (not (blank single text p.text)) (finds (text_subquery single text global p)))
            (first_clauses single text global p none)
    IsMust-first p = elim (Bool-cases (not (blank single text p.text))) [
      | inl y ↦ rw y (IsMust-one _ (text_subquery single text global p) refl)
      | inr n ↦ rw n (IsMust-none (finds (text_subquery single text global p)))
    ]

    When-with_base :
        (b : Bool) (c : Checked (List Clause))
        → When (λ xs. wanted_top xs ≡ b) c
        → When (λ q. finds q ≡ b) (with_base single text global c)
    When-with_base b (rejected e) h = tt
    When-with_base b (accepted xs) h =
        Top.finds-boolean fl text index weights sim d (Top.based fl text index weights sim d xs)
        ∙ Top.wanted-based fl text index weights sim d xs
        ∙ h

    -- Clauses that, behind those of the text, ask for what the parameters do.
    abbrev Behind : QueryParams F32 → List Clause → Type 0
    Behind p ys =
        (xs : List Clause)
        → IsMust (not (blank single text p.text)) (finds (text_subquery single text global p)) xs
        → wanted_top (xs ++ ys)
          ≡ meant (not (blank single text p.text)) (finds (text_subquery single text global p))
              p.where_groups p.in_groups

    When-Behind :
        (p : QueryParams F32)
        → When (Behind p) (
            after
              (where_clauses single text p.where_groups)
              (in_clause single text p.in_groups (in_clauses single text p.in_groups)))
    When-Behind p =
        When-after (λ ws. ws ≡ map group_clause p.where_groups)
          (IsMust (not (is_empty p.in_groups)) (any_of in_in_group p.in_groups)) (Behind p)
          (where_clauses single text p.where_groups)
          (in_clause single text p.in_groups (in_clauses single text p.in_groups))
          (When-where_clauses p.where_groups)
          (When-in_clause p.in_groups (in_clauses single text p.in_groups)
            (When-in_clauses p.in_groups))
          (λ ws last e l xs f.
            ap (λ t. wanted_top (xs ++ (t ++ last))) e
            ∙ wanted_top-meant (not (blank single text p.text))
                (finds (text_subquery single text global p)) p.where_groups p.in_groups xs last f l)

    -- Without a tree, the query that build_query returns, if it does, finds a document exactly if no
    -- must_not group has a value in it, and: where there is a text, a must group or an in group, the
    -- text is found, each must group has a value in it, and some in group has, if there are any; else,
    -- where there is a should group, one of these has; else the document exists and is not deleted.
    pub build_query-meant :
        (p : QueryParams F32)
        → p.boolean_tree ≡ none
        → When
            (λ q.
              is_some (value fl text index weights sim q d)
              ≡ meant
                  (not (blank single text p.text))
                  (finds (text_subquery single text global p))
                  p.where_groups
                  p.in_groups)
            (build_query single text global p)
    unfolding build_query
    build_query-meant p no_tree =
        let has_text = not (blank single text p.text) in
        let in_text = finds (text_subquery single text global p) in
        let ins = in_clause single text p.in_groups (in_clauses single text p.in_groups) in
        let wheres = where_clauses single text p.where_groups in
        rw no_tree (
          When-with_base (meant has_text in_text p.where_groups p.in_groups)
            (after (first_clauses single text global p none) (after wheres ins))
            (When-after (IsMust has_text in_text) (Behind p)
              (λ xs. wanted_top xs ≡ meant has_text in_text p.where_groups p.in_groups)
              (first_clauses single text global p none) (after wheres ins) (IsMust-first p)
              (When-Behind p) (λ xs ys f k. k xs f)))
