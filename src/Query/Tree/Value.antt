-- ===== src/Query/Tree/Value.antt =====
-- The query of a tree finds the documents that the tree means.
use php_sdsearch.Prelude.{
  ℕ, zero, suc, ◌+◌, ◌-◌, ◌≡◌, refl, sym, ap, ◌∙◌, arith, List, [], ◌∷◌, none, Bool, true, false,
  not, ◌&&◌, ◌||◌,
}
use php_sdsearch.Floats.{Floats}
use php_sdsearch.Index.{IndexReader}
use php_sdsearch.Score.{Similarity}
use php_sdsearch.Analysis.{Text, analyze}
use php_sdsearch.Maps.{is_some, is_empty}
use php_sdsearch.Query
use php_sdsearch.Query.Boolean.{Occur, should, must, must_not, clauses_of}
use php_sdsearch.Query.Boolean.Found.{found, is_some-value_boolean}
use php_sdsearch.Query.Meaning.{Value, all_some, any_some, value, value_clauses}
use php_sdsearch.Query.Tree.{
  Checked, When, accepted, rejected, BoolNode, BoolNodes, and_node, or_node, not_node, term_node,
  no_nodes, node, max_tree_depth, strip_double_negation, with_clause, boolean_of, and_clause,
  and_clauses, or_clauses, map_stripped, map_within, map_bool_node,
}
use php_sdsearch.Query.Tree.Signs.{single, single-strip, negative-strip, base-strip, matches-strip}
use php_sdsearch.Query.Tree.Meaning.{negative, any_positive, base, each, some_one, matches}

module _ (fl : Floats) (text : Text) (index : IndexReader fl.F32) (weights : List (List ℕ × fl.F32))
    (sim : Similarity) (accent_insensitive : Bool) (d : ℕ) where
  open fl use {F32, single as f32}

  abbrev finds : Query.Query F32 → Bool
  finds q = is_some (value fl text index weights sim q d)

  -- The phrase of the words is in some field of the document.
  abbrev pub holds_phrase : List ℕ → Bool
  holds_phrase s = finds (Query.phrase none (analyze text s) accent_insensitive)

  abbrev parts : Occur → Query.Clauses F32 → List (Value F32)
  parts o clauses = clauses_of o (value_clauses fl text index weights sim clauses)

  abbrev not_excluded : Query.Clauses F32 → Bool
  not_excluded clauses = not (any_some f32 (parts must_not clauses) d)

  abbrev all_musts : Query.Clauses F32 → Bool
  all_musts clauses = all_some f32 (parts must clauses) d

  When-with_clause :
      (P : Query.Query F32 → Type 0) (Q R : Query.Clauses F32 → Type 0) (o : Occur)
      (c : Checked (Query.Query F32)) (rest : Checked (Query.Clauses F32))
      → When P c
      → When Q rest
      → ((q : Query.Query F32) (cs : Query.Clauses F32) → P q → Q cs → R (Query.clause o q cs))
      → When R (with_clause o c rest)
  When-with_clause P Q R o (accepted q) (accepted cs) p q' f = f q cs p q'
  When-with_clause P Q R o (accepted q) (rejected e) p q' f = tt
  When-with_clause P Q R o (rejected e) rest p q' f = tt

  When-boolean_of :
      (P : Query.Clauses F32 → Type 0) (R : Query.Query F32 → Type 0)
      (cs : Checked (Query.Clauses F32))
      → When P cs
      → ((xs : Query.Clauses F32) → P xs → R (Query.boolean xs))
      → When R (boolean_of cs)
  When-boolean_of P R (accepted xs) p f = f xs p
  When-boolean_of P R (rejected e) p f = tt

  -- The query finds the document exactly if the node matches it.
  abbrev pub Finds : BoolNode → Query.Query F32 → Type 0
  Finds n q = finds q ≡ matches holds_phrase n

  -- What the clauses of an `and` are.
  abbrev IsAnd : BoolNodes → Query.Clauses F32 → Type 0
  IsAnd children cs =
      (parts should cs ≡ [])
      × ((any_positive children ≡ not (is_empty (parts must cs)))
          × ((not_excluded cs && all_musts cs) ≡ each holds_phrase children))

  abbrev IsOr : BoolNodes → Query.Clauses F32 → Type 0
  IsOr children cs =
      (parts must cs ≡ [])
      × ((parts must_not cs ≡ [])
          × (any_some f32 (parts should cs) d ≡ some_one holds_phrase children))

  module _ (child : BoolNode → Checked (Query.Query F32))
      (ih : (n : BoolNode) → When (Finds n) (child n)) where
    When-or_clauses : (children : BoolNodes) → When (IsOr children) (or_clauses child children)
    unfolding or_clauses value clauses_of any_some some_one matches
    When-or_clauses no_nodes = (refl, (refl, refl))
    When-or_clauses (node c children) =
        When-with_clause (Finds c) (IsOr children) (IsOr (node c children)) should (child c)
          (or_clauses child children) (ih c) (When-or_clauses children)
          (λ q cs p h. (h.0, (h.1.0, rw (p, h.1.1) refl)))

  -- The clauses of an `and`, one in front of the others.
  finds-base :
      (s : BoolNode) (q : Query.Query F32)
      → negative s ≡ false
      → Finds s q
      → finds q ≡ base holds_phrase s
  unfolding matches
  finds-base s q n p = p ∙ rw n refl

  all_musts_must :
      (q : Query.Query F32) (cs : Query.Clauses F32)
      → all_musts (Query.clause must q cs) ≡ (finds q && all_musts cs)
  unfolding value clauses_of all_some
  all_musts_must q cs = refl

  not_excluded_must :
      (q : Query.Query F32) (cs : Query.Clauses F32)
      → not_excluded (Query.clause must q cs) ≡ not_excluded cs
  unfolding value clauses_of
  not_excluded_must q cs = refl

  all_musts_must_not :
      (q : Query.Query F32) (cs : Query.Clauses F32)
      → all_musts (Query.clause must_not q cs) ≡ all_musts cs
  unfolding value clauses_of
  all_musts_must_not q cs = refl

  not_excluded_must_not :
      (q : Query.Query F32) (cs : Query.Clauses F32)
      → not_excluded (Query.clause must_not q cs) ≡ (not (finds q) && not_excluded cs)
  unfolding value clauses_of any_some
  not_excluded_must_not q cs = neither (finds q) (any_some f32 (parts must_not cs) d)
    where
      neither : (a b : Bool) → not (a || b) ≡ (not a && not b)
      neither true b = refl
      neither false b = refl

  swap_and : (a b c : Bool) → (a && (b && c)) ≡ (b && (a && c))
  swap_and true b c = refl
  swap_and false true c = refl
  swap_and false false c = refl

  and_assoc : (a b c : Bool) → ((a && b) && c) ≡ (a && (b && c))
  and_assoc true b c = refl
  and_assoc false b c = refl

  must_clause :
      (s c : BoolNode) (children : BoolNodes) (q : Query.Query F32) (cs : Query.Clauses F32)
      → negative s ≡ negative c
      → base holds_phrase s ≡ base holds_phrase c
      → negative s ≡ false
      → Finds s q
      → IsAnd children cs
      → IsAnd (node c children) (Query.clause must q cs)
  unfolding any_positive each clauses_of value is_empty
  must_clause s c children q cs same_sign same_base n p h = (
    h.0,
    (
      rw (sym same_sign ∙ n) refl,
      rw
          (
            not_excluded_must q cs,
            all_musts_must q cs,
            sym same_sign ∙ n,
            finds-base s q n p,
            same_base,
          )
          (swap_and (not_excluded cs) (base holds_phrase c) (all_musts cs)
            ∙ ap (λ b. base holds_phrase c && b) h.1.1),
    ),
  )

  must_not_clause :
      (s c : BoolNode) (children : BoolNodes) (q : Query.Query F32) (cs : Query.Clauses F32)
      → negative (not_node s) ≡ negative c
      → base holds_phrase (not_node s) ≡ base holds_phrase c
      → negative s ≡ false
      → Finds s q
      → IsAnd children cs
      → IsAnd (node c children) (Query.clause must_not q cs)
  unfolding any_positive each clauses_of value
  must_not_clause s c children q cs same_sign same_base n p h =
      let odd : negative c ≡ true = sym same_sign ∙ unfold negative in rw n refl in
      let behind : base holds_phrase s ≡ base holds_phrase c = unfold base in same_base in
      (
        h.0,
        (
          rw odd h.1.0,
          rw (not_excluded_must_not q cs, all_musts_must_not q cs, odd, finds-base s q n p, behind)
              (and_assoc (not (base holds_phrase c)) (not_excluded cs) (all_musts cs)
                ∙ ap (λ b. not (base holds_phrase c) && b) h.1.1),
        ),
      )

  -- The query of a node, from what its clauses are.
  found_without_shoulds :
      (musts : List (Value F32))
      → found f32 musts [] d ≡ (not (is_empty musts) && all_some f32 musts d)
  unfolding found is_empty any_some
  found_without_shoulds [] = refl
  found_without_shoulds (v ∷ musts) = refl

  finds_boolean :
      (cs : Query.Clauses F32)
      → finds (Query.boolean cs)
        ≡ (not_excluded cs && found f32 (parts must cs) (parts should cs) d)
  unfolding value
  finds_boolean cs = is_some-value_boolean f32 (value_clauses fl text index weights sim cs) d

  Finds-and :
      (children : BoolNodes) (cs : Query.Clauses F32)
      → IsAnd children cs
      → Finds (and_node children) (Query.boolean cs)
  unfolding matches base negative
  Finds-and children cs h =
      finds_boolean cs
      ∙ rw (h.0, found_without_shoulds (parts must cs), sym h.1.0)
          (swap_and (not_excluded cs) (any_positive children) (all_musts cs)
            ∙ ap (λ b. any_positive children && b) h.1.1)

  Finds-or :
      (children : BoolNodes) (cs : Query.Clauses F32)
      → IsOr children cs
      → Finds (or_node children) (Query.boolean cs)
  unfolding matches base negative found any_some
  Finds-or children cs h = finds_boolean cs ∙ rw (h.0, h.1.0) h.1.1

  Finds-not :
      (x : BoolNode) (q : Query.Query F32)
      → negative x ≡ false
      → Finds (not_node x) (Query.boolean (Query.clause must_not q Query.no_clauses))
  unfolding matches negative found any_some value clauses_of
  Finds-not x q n =
      finds_boolean (Query.clause must_not q Query.no_clauses)
      ∙ and_none (not_excluded (Query.clause must_not q Query.no_clauses))
      ∙ rw n refl
    where
      and_none : (b : Bool) → (b && false) ≡ false
      and_none true = refl
      and_none false = refl

  module _ (child : BoolNode → Checked (Query.Query F32))
      (ih : (n : BoolNode) → When (Finds n) (child n)) where
    When-and_clause :
        (s c : BoolNode) (children : BoolNodes) (rest : Checked (Query.Clauses F32))
        → single s ≡ true
        → negative s ≡ negative c
        → base holds_phrase s ≡ base holds_phrase c
        → When (IsAnd children) rest
        → When (IsAnd (node c children)) (and_clause child s rest)
    When-and_clause (not_node x) c children rest one g b h =
        When-with_clause (Finds x) (IsAnd children) (IsAnd (node c children)) must_not (child x)
          rest (ih x) h (λ q cs. must_not_clause x c children q cs g b (even (negative x) one))
      where
        even : (b : Bool) → not b ≡ true → b ≡ false
        even true h = absurd (ground arith)
        even false h = refl
    When-and_clause (and_node xs) c children rest one g b h =
        When-with_clause (Finds (and_node xs)) (IsAnd children) (IsAnd (node c children)) must
          (child (and_node xs)) rest (ih (and_node xs)) h
          (λ q cs. must_clause (and_node xs) c children q cs g b (unfold negative in refl))
    When-and_clause (or_node xs) c children rest one g b h =
        When-with_clause (Finds (or_node xs)) (IsAnd children) (IsAnd (node c children)) must
          (child (or_node xs)) rest (ih (or_node xs)) h
          (λ q cs. must_clause (or_node xs) c children q cs g b (unfold negative in refl))
    When-and_clause (term_node t) c children rest one g b h =
        When-with_clause (Finds (term_node t)) (IsAnd children) (IsAnd (node c children)) must
          (child (term_node t)) rest (ih (term_node t)) h
          (λ q cs. must_clause (term_node t) c children q cs g b (unfold negative in refl))

    When-and_clauses : (children : BoolNodes) → When (IsAnd children) (and_clauses child children)
    unfolding and_clauses value clauses_of any_some all_some each any_positive is_empty
    When-and_clauses no_nodes = (refl, (refl, refl))
    When-and_clauses (node c children) =
        When-and_clause (strip_double_negation c) c children (and_clauses child children)
          (single-strip c) (negative-strip c) (base-strip holds_phrase c)
          (When-and_clauses children)

    When-map_stripped :
        (s : BoolNode)
        → single s ≡ true
        → When (Finds s) (map_stripped text accent_insensitive child s)
    When-map_stripped (term_node t) one = unfold matches base negative in refl
    When-map_stripped (not_node x) one = go (child x)
      where
        even : (b : Bool) → not b ≡ true → b ≡ false
        even true h = absurd (ground arith)
        even false h = refl

        go :
            (c : Checked (Query.Query F32))
            → When
                (Finds (not_node x))
                (boolean_of (with_clause must_not c (accepted Query.no_clauses)))
        go (accepted q) = Finds-not x q (even (negative x) one)
        go (rejected e) = tt
    When-map_stripped (and_node xs) one =
        When-boolean_of (IsAnd xs) (Finds (and_node xs)) (and_clauses child xs)
          (When-and_clauses xs) (Finds-and xs)
    When-map_stripped (or_node xs) one =
        When-boolean_of (IsOr xs) (Finds (or_node xs)) (or_clauses child xs)
          (When-or_clauses child ih xs) (Finds-or xs)

  When-strip :
      (n : BoolNode) (c : Checked (Query.Query F32))
      → When (Finds (strip_double_negation n)) c
      → When (Finds n) c
  When-strip n (accepted q) h = h ∙ matches-strip holds_phrase n
  When-strip n (rejected e) h = tt

  When-map_within :
      (left : ℕ) (n : BoolNode) → When (Finds n) (map_within text accent_insensitive left n)
  unfolding map_within
  When-map_within zero n = tt
  When-map_within (suc left) n =
      When-strip n
        (map_stripped text accent_insensitive (map_within text accent_insensitive left)
          (strip_double_negation n))
        (When-map_stripped (map_within text accent_insensitive left) (When-map_within left)
          (strip_double_negation n) (single-strip n))

  -- The query that a tree is mapped to, if it is not too deep, finds a document exactly if the tree
  -- matches it.
  pub map_bool_node-matches :
      (n : BoolNode) (depth : ℕ)
      → When
          (λ q. is_some (value fl text index weights sim q d) ≡ matches holds_phrase n)
          (map_bool_node text accent_insensitive n depth)
  unfolding map_bool_node
  map_bool_node-matches n depth = When-map_within (max_tree_depth + 1 - depth) n
