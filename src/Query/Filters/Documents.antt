-- ===== src/Query/Filters/Documents.antt =====
-- The sets of documents that the filters build, and when a set is all of the documents.
use php_sdsearch.Prelude.{
  ℕ, ◌≡◌, refl, sym, ◌∙◌, arith, List, [], ◌∷◌, length, Option, none, some, true, not, ◌==◌, ◌&&◌,
  ◌||◌,
}
use php_sdsearch.Prelude.{if◌then◌else◌, leb, Bool-cases, inl, inr}
use php_sdsearch.Maps.{keep, contains, is_empty, insert_member, keys}
unfoldable pub use php_sdsearch.Maps.{all_of, any_of}
use php_sdsearch.Maps.Sets.{
  IsSetOf, Within, contains-insert_member, IsSetOf-insert_member, IsSetOf-keep, contains-Within,
}
use php_sdsearch.Query.Boolean.{intersect_in_place, meet}
use php_sdsearch.Query.Boolean.Loops.{contains-intersect_in_place, contains-meet}
use php_sdsearch.Query.Boolean.Meaning.{and_left, and_right}
use php_sdsearch.Query.Filters.{insert_docs, drop_if_universal, intersect_allow}
use php_sdsearch.Search.Scores.{allowed}

pub contains-insert_docs :
    (ps : List (ℕ × ℕ)) (docs : List ℕ) (d : ℕ)
    → contains (insert_docs ps docs) d ≡ (contains (keys ps) d || contains docs d)
unfolding insert_docs keys contains
contains-insert_docs [] docs d = refl
contains-insert_docs ((k, tf) ∷ ps) docs d =
    contains-insert_docs ps (insert_member docs k) d
    ∙ rw (contains-insert_member docs k d) (ground arith)

pub IsSetOf-insert_docs :
    (ps : List (ℕ × ℕ)) (docs : List ℕ) → IsSetOf docs → IsSetOf (insert_docs ps docs)
unfolding insert_docs
IsSetOf-insert_docs [] docs h = h
IsSetOf-insert_docs ((k, tf) ∷ ps) docs h =
    IsSetOf-insert_docs ps (insert_member docs k) (IsSetOf-insert_member docs k h)

pub Within-insert_docs :
    (ids : List ℕ) (ps : List (ℕ × ℕ)) (docs : List ℕ)
    → Within (keys ps) ids
    → Within docs ids
    → Within (insert_docs ps docs) ids
Within-insert_docs ids ps docs h k d y = either (sym (contains-insert_docs ps docs d) ∙ y)
  where
    either : (contains (keys ps) d || contains docs d) ≡ true → contains ids d ≡ true
    either z = elim (Bool-cases (contains (keys ps) d)) [ inl e ↦ h d e | inr e ↦ k d (rw e at z) ]

-- An allow-list that holds a set of documents of `ids`.
abbrev pub IsListOf : List ℕ → Option (List ℕ) → Type 0
IsListOf ids none = Unit
IsListOf ids (some set) = IsSetOf set × Within set ids

pub IsListOf-meet :
    (ids : List ℕ) (acc : Option (List ℕ)) (set : List ℕ)
    → IsListOf ids acc
    → IsListOf ids (some set)
    → IsListOf ids (some (meet acc set))
unfolding meet intersect_in_place
IsListOf-meet ids none set h k = k
IsListOf-meet ids (some prev) set h k = (
  one_of,
  λ d y. h.1 d (and_left (contains prev d) _ (sym (contains-intersect_in_place prev set d) ∙ y)),
)
  where
    one_of : IsSetOf (
        if leb (length prev) (length set)
        then keep (contains set) prev
        else keep (contains prev) set)
    one_of = elim (Bool-cases (leb (length prev) (length set))) [
      | inl y ↦ rw y (IsSetOf-keep (contains set) prev h.0)
      | inr n ↦ rw n (IsSetOf-keep (contains prev) set k.0)
    ]

pub allowed-meet :
    (acc : Option (List ℕ)) (set : List ℕ) (d : ℕ)
    → allowed (some (meet acc set)) d ≡ (allowed acc d && contains set d)
unfolding allowed
allowed-meet acc set d = contains-meet acc set d

-- To drop a list of all documents changes nothing for a document.
pub allowed-drop_if_universal :
    (ids : List ℕ) (acc : Option (List ℕ)) (live d : ℕ)
    → IsListOf ids acc
    → length ids ≡ live
    → contains ids d ≡ true
    → allowed (drop_if_universal acc live) d ≡ allowed acc d
unfolding drop_if_universal allowed
allowed-drop_if_universal ids none live d h same y = refl
allowed-drop_if_universal ids (some set) live d h same y =
    elim (Bool-cases (not (is_empty set) && (length set == live))) [
      | inl e ↦
          let as_many : (length set == live) ≡ true = and_right (not (is_empty set)) _ e in
          let equal : length set ≡ length ids = ground arith in
          rw e (sym (contains-Within set ids d h.0 h.1 equal y))
      | inr e ↦ rw e refl
    ]

pub allowed-intersect_allow :
    (a b : Option (List ℕ)) (d : ℕ) → allowed (intersect_allow a b) d ≡ (allowed a d && allowed b d)
unfolding intersect_allow allowed
allowed-intersect_allow none b d = refl
allowed-intersect_allow (some x) none d = ground arith
allowed-intersect_allow (some x) (some y) d = contains-intersect_in_place x y d
