-- ===== src/Query/Tree/Classical.antt =====
-- Trees where each negation has something to be taken from mean what logic says.
use php_sdsearch.Prelude.{
  ℕ, ◌≡◌, refl, ap, ◌∙◌, arith, List, Bool, true, false, not, ◌&&◌, ◌||◌, if◌then◌else◌,
}
use mathlib.Core.Path.{ap₂}
use php_sdsearch.Floats.{Floats}
use php_sdsearch.Index.{IndexReader}
use php_sdsearch.Score.{Similarity}
use php_sdsearch.Analysis.{Text}
use php_sdsearch.Maps.{is_some}
use php_sdsearch.Query
use php_sdsearch.Query.Boolean.Meaning.{and_left, and_right}
use php_sdsearch.Query.Meaning.{value}
use php_sdsearch.Query.Tree.{
  Checked, When, accepted, rejected, BoolNode, BoolNodes, and_node, or_node, not_node, term_node,
  no_nodes, node, map_bool_node,
}
use php_sdsearch.Query.Tree.Meaning.{negative, any_positive, base, each, some_one, matches}
use php_sdsearch.Query.Tree.Value.{holds_phrase, map_bool_node-matches}

unfoldable pub no_negative : BoolNodes → Bool
no_negative no_nodes = true
no_negative (node c children) = not (negative c) && no_negative children

unfoldable mutual
  unfolding negative any_positive no_negative

  -- Each `and` has a child that is not negated, and no `or` has a child that is.
  pub supported : BoolNode → Bool
  supported (term_node s) = true
  supported (not_node x) = supported x
  supported (and_node children) = any_positive children && all_supported children
  supported (or_node children) = no_negative children && all_supported children

  pub all_supported : BoolNodes → Bool
  all_supported no_nodes = true
  all_supported (node c children) = supported c && all_supported children

module _ (holds : List ℕ → Bool) where
  unfoldable mutual
    -- The value of the tree in classical logic.
    pub classical : BoolNode → Bool
    classical (term_node s) = holds s
    classical (not_node x) = not (classical x)
    classical (and_node children) = all_classical children
    classical (or_node children) = any_classical children

    pub all_classical : BoolNodes → Bool
    all_classical no_nodes = true
    all_classical (node c children) = classical c && all_classical children

    pub any_classical : BoolNodes → Bool
    any_classical no_nodes = false
    any_classical (node c children) = classical c || any_classical children

  abbrev signed : BoolNode → Bool
  signed n = if negative n then not (base holds n) else base holds n

  turned : (n b : Bool) → not (if n then not b else b) ≡ (if not n then not b else b)
  turned true true = refl
  turned true false = refl
  turned false b = refl

  positive : (n b : Bool) → not n ≡ true → (if n then not b else b) ≡ (not n && b)
  positive true b k = absurd (ground arith)
  positive false b k = refl

  mutual
    unfolding negative base classical supported any_positive no_negative

    classical-signed : (n : BoolNode) → supported n ≡ true → classical n ≡ signed n
    classical-signed (term_node s) h = refl
    classical-signed (not_node x) h =
        ap not (classical-signed x h) ∙ turned (negative x) (base holds x)
    classical-signed (and_node children) h =
        all_classical-each children (and_right (any_positive children) (all_supported children) h)
        ∙ rw (and_left (any_positive children) (all_supported children) h) refl
    classical-signed (or_node children) h =
        any_classical-some_one children (and_left (no_negative children) (all_supported children) h)
          (and_right (no_negative children) (all_supported children) h)

    all_classical-each :
        (children : BoolNodes)
        → all_supported children ≡ true
        → all_classical children ≡ each holds children
    all_classical-each no_nodes h = refl
    all_classical-each (node c children) h =
        ap₂ (λ a b. a && b) (classical-signed c (and_left (supported c) (all_supported children) h))
          (all_classical-each children (and_right (supported c) (all_supported children) h))

    any_classical-some_one :
        (children : BoolNodes)
        → no_negative children ≡ true
        → all_supported children ≡ true
        → any_classical children ≡ some_one holds children
    any_classical-some_one no_nodes k h = refl
    any_classical-some_one (node c children) k h =
        ap₂ (λ a b. a || b)
          (classical-signed c (and_left (supported c) (all_supported children) h)
            ∙ positive (negative c) (base holds c)
                (and_left (not (negative c)) (no_negative children) k))
          (any_classical-some_one children (and_right (not (negative c)) (no_negative children) k)
            (and_right (supported c) (all_supported children) h))

  matches-classical :
      (n : BoolNode) → supported n ≡ true → negative n ≡ false → matches holds n ≡ classical n
  unfolding matches
  matches-classical n h k =
      let same : classical n ≡ base holds n = classical-signed n h ∙ rw k refl in rw (k, same) refl

module _ (fl : Floats) (text : Text) (index : IndexReader fl.F32) (weights : List (List ℕ × fl.F32))
    (sim : Similarity) (accent_insensitive : Bool) (d : ℕ) where
  -- The query that a tree is mapped to, if it is not too deep, finds a document exactly if the tree
  -- is true of it in classical logic, where a phrase is true of a document that holds it: for trees
  -- that do not negate at the root, with a child that is not negated in each `and` and no negated
  -- child in an `or`.
  pub map_bool_node-classical :
      (n : BoolNode) (depth : ℕ)
      → supported n ≡ true
      → negative n ≡ false
      → When
          (λ q.
            is_some (value fl text index weights sim q d)
            ≡ classical (holds_phrase fl text index weights sim accent_insensitive d) n)
          (map_bool_node text accent_insensitive n depth)
  map_bool_node-classical n depth h k =
      go (map_bool_node text accent_insensitive n depth)
        (map_bool_node-matches fl text index weights sim accent_insensitive d n depth)
    where
      go :
          (c : Checked (Query.Query fl.F32))
          → When
              (λ q.
                is_some (value fl text index weights sim q d)
                ≡ matches (holds_phrase fl text index weights sim accent_insensitive d) n)
              c
          → When
              (λ q.
                is_some (value fl text index weights sim q d)
                ≡ classical (holds_phrase fl text index weights sim accent_insensitive d) n)
              c
      go (accepted q) e =
          e ∙ matches-classical (holds_phrase fl text index weights sim accent_insensitive d) n h k
      go (rejected e) t = tt
