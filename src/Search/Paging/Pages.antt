-- ===== src/Search/Paging/Pages.antt =====
-- A page is cut out of the whole ranking.
use php_sdsearch.Prelude.{
  ℕ, zero, suc, ◌+◌, ◌-◌, ◌^◌, ◌<◌, ◌≤◌, ◌==◌, ◌≡◌, refl, sym, ap, ◌∙◌, arith, List, [], ◌∷◌, map,
  length, take, drop, Option, none, some, Bool, true, false, All, All-imp,
}
use php_sdsearch.Prelude.{ltb, Bool-cases, inl, inr}
use php_sdsearch.Floats.{Floats}
use php_sdsearch.Index.{IndexReader}
use php_sdsearch.Maps.{keep, get}
use php_sdsearch.Maps.Laws.{IsMap}
use php_sdsearch.Strings.{then_with, sort_by}
use php_sdsearch.Search.Terms.{or_equal}
use php_sdsearch.Search.Paging.{saturating_add, id_cmp, least, by_score, hydrate, finalize_paged}
use php_sdsearch.Search.Paging.Sorting.{is_gt, reverse, IsTotal}
use php_sdsearch.Search.Paging.Selection.{Selected, sort_by-Selected}
use mathlib.Core.Ordering.{Ordering, eq}
use mathlib.Core.Option.{none-ne-some, some-injective}
use mathlib.Core.Path.{ap₂}

module _ {ℓ} {A : Type ℓ} where
  take-take : (l n : ℕ) (xs : List A) → l ≤ n → take l (take n xs) ≡ take l xs
  take-take zero n xs h = refl
  take-take (suc l) zero xs h = absurd (omega arith)
  take-take (suc l) (suc n) [] h = refl
  take-take (suc l) (suc n) (x ∷ xs) h = ap (λ t. x ∷ t) (take-take l n xs (omega arith))

  take-drop-take :
      (l o n : ℕ) (xs : List A) → o + l ≤ n → take l (drop o (take n xs)) ≡ take l (drop o xs)
  take-drop-take l zero n xs h = take-take l n xs (omega arith)
  take-drop-take l (suc o) zero xs h = absurd (omega arith)
  take-drop-take l (suc o) (suc n) [] h = refl
  take-drop-take l (suc o) (suc n) (x ∷ xs) h = take-drop-take l o n xs (omega arith)

length-keep : {A : Type 0} (p : A → Bool) (xs : List A) → length (keep p xs) ≤ length xs
unfolding keep
length-keep p [] = omega arith
length-keep p (x ∷ xs) =
    let rest = length-keep p xs in
    elim (Bool-cases (p x)) [ inl y ↦ rw y (omega arith) | inr n ↦ rw n (omega arith) ]

-- `by_score` where a score is its rank.
abbrev rank_cmp : ℕ → ℕ → ℕ → ℕ → Ordering
rank_cmp r i s j = then_with (id_cmp s r) (id_cmp i j)

rank_cmp-reverse : (r i s j : ℕ) → rank_cmp s j r i ≡ reverse (rank_cmp r i s j)
rank_cmp-reverse r i s j = ground arith

rank_cmp_trans :
    (r i s j t k : ℕ)
    → is_gt (rank_cmp r i s j) ≡ false
    → is_gt (rank_cmp s j t k) ≡ false
    → is_gt (rank_cmp r i t k) ≡ false
rank_cmp_trans r i s j t k g h = ground arith

rank_cmp-eq : (r i s j : ℕ) → rank_cmp r i s j ≡ eq → i ≡ j
rank_cmp-eq r i s j h = ground arith

All-keep {κ} :
    {A : Type 0} (P : A → Type κ) (p : A → Bool) (xs : List A)
    → All P xs
    → All (λ x. P x × (p x ≡ true)) (keep p xs)
unfolding keep
All-keep P p [] h = tt
All-keep P p (x ∷ xs) h =
    let rest = All-keep P p xs h.1 in
    elim (Bool-cases (p x)) [ inl y ↦ rw y ((h.0, y), rest) | inr n ↦ rw n rest ]

module _ {X : Type 0} where
  get-behind :
      (k : ℕ) (v : X) (m : List (ℕ × X)) (p : ℕ × X)
      → get k m ≡ none
      → get p.0 m ≡ some p.1
      → get p.0 ((k, v) ∷ m) ≡ some p.1
  unfolding get
  get-behind k v m p h e = elim (Bool-cases (k == p.0)) [
    | inl y ↦
        let i : k ≡ p.0 = ground arith in
        absurd (none-ne-some p.1 (sym h ∙ ap (λ d. get d m) i ∙ e))
    | inr n ↦ rw n e
  ]

  -- Every entry of a map is what is found under its key.
  IsMap-All : (m : List (ℕ × X)) → IsMap m → All (λ p. get p.0 m ≡ some p.1) m
  IsMap-All [] h = tt
  IsMap-All ((k, v) ∷ m) h = (
    unfold get in ground arith,
    All-imp _ _ (λ p e. get-behind k v m p h.0 e) m (IsMap-All m h.1),
  )

module _ (fl : Floats) where
  open fl use {F32, single}
  open single use {ge, partial_cmp}

  not_saturated :
      (offset limit n : ℕ)
      → saturating_add offset limit < n
      → n ≤ 2 ^ 64 - 1
      → offset + limit ≤ saturating_add offset limit
  not_saturated offset limit n far fits = omega arith

  module _ (rank : F32 → ℕ) (min_score : F32)
      (ranks : (a b : F32)
        → ge a min_score ≡ true
        → ge b min_score ≡ true
        → partial_cmp a b ≡ some (id_cmp (rank a) (rank b))) where
    -- An entry of the scores that is not left out.
    abbrev Ranked : List (ℕ × F32) → ℕ × F32 → Type 0
    Ranked scored p = (get p.0 scored ≡ some p.1) × (ge p.1 min_score ≡ true)

    by_score-rank_cmp :
        (x y : ℕ × F32)
        → ge x.1 min_score ≡ true
        → ge y.1 min_score ≡ true
        → by_score fl x y ≡ rank_cmp (rank x.1) x.0 (rank y.1) y.0
    by_score-rank_cmp x y h k =
        ap (λ o. then_with (or_equal fl o) (id_cmp x.0 y.0)) (ranks y.1 x.1 k h)

    by_score-IsTotal : (scored : List (ℕ × F32)) → IsTotal (by_score fl) (Ranked scored)
    by_score-IsTotal scored = record {
      dual = λ x y h k.
          by_score-rank_cmp y x k.1 h.1
          ∙ rank_cmp-reverse (rank x.1) x.0 (rank y.1) y.0
          ∙ ap reverse (sym (by_score-rank_cmp x y h.1 k.1));
      trans = λ x y z h k l f g.
          ap is_gt (by_score-rank_cmp x z h.1 l.1)
          ∙ rank_cmp_trans (rank x.1) x.0 (rank y.1) y.0 (rank z.1) z.0
              (ap is_gt (sym (by_score-rank_cmp x y h.1 k.1)) ∙ f)
              (ap is_gt (sym (by_score-rank_cmp y z k.1 l.1)) ∙ g);
      same = λ x y h k e.
          let i =
            rank_cmp-eq (rank x.1) x.0 (rank y.1) y.0 (sym (by_score-rank_cmp x y h.1 k.1) ∙ e) in
          ap₂ (λ a b. (a, b)) i (some-injective x.1 y.1 (sym h.0 ∙ ap (λ d. get d scored) i ∙ k.0));
    }

    module _ (select : (ℕ × F32 → ℕ × F32 → Ordering) → ℕ → List (ℕ × F32) → List (ℕ × F32)) where
      cut :
          (scored ranked : List (ℕ × F32)) (offset limit : ℕ)
          → All (Ranked scored) ranked
          → length ranked ≤ 2 ^ 64 - 1
          → (saturating_add offset limit < length ranked
              → Selected
                  (by_score fl)
                  (saturating_add offset limit)
                  ranked
                  (select (by_score fl) (saturating_add offset limit) ranked))
          → take limit (
              drop offset (
                sort_by
                  (by_score fl)
                  (least select (by_score fl) (saturating_add offset limit) ranked)))
            ≡ take limit (drop offset (sort_by (by_score fl) ranked))
      unfolding least
      cut scored ranked offset limit h fits selected =
          let need : ℕ = saturating_add offset limit in
          elim (Bool-cases (ltb need (length ranked))) [
            | inl y ↦
                let far : need < length ranked = ground arith in
                let enough : offset + limit ≤ need =
                  not_saturated offset limit (length ranked) far fits in
                rw y (
                  ap (λ xs. take limit (drop offset xs))
                    (sort_by-Selected (by_score fl) (by_score-IsTotal scored) need ranked
                      (select (by_score fl) need ranked) h (selected far))
                  ∙ take-drop-take limit offset need (sort_by (by_score fl) ranked) enough)
            | inr n ↦ rw n refl
          ]

      -- The scores are a map and not more than the largest usize. Floats that are not less than
      -- min_score compare by a rank, as all numbers do. `select`, where it is called, permutes the
      -- list so that what stands in front of place `offset + limit` (saturated) is not greater than
      -- the element there, and what stands behind it is not less, each part in any order. Then
      -- finalize_paged returns the page of `limit` hits behind the first `offset` of the whole
      -- ranking, where the scores below min_score are left out.
      pub finalize_paged-page :
          (index : IndexReader F32) (scored : List (ℕ × F32)) (offset limit : ℕ)
          (total_cap : Option ℕ)
          → IsMap scored
          → length scored ≤ 2 ^ 64 - 1
          → (saturating_add offset limit < length (keep (λ p. ge p.1 min_score) scored)
              → Selected
                  (by_score fl)
                  (saturating_add offset limit)
                  (keep (λ p. ge p.1 min_score) scored)
                  (select
                    (by_score fl)
                    (saturating_add offset limit)
                    (keep (λ p. ge p.1 min_score) scored)))
          → (finalize_paged fl index select scored min_score offset limit total_cap).hits
            ≡ map (hydrate fl index) (
                take limit
                  (drop offset (sort_by (by_score fl) (keep (λ p. ge p.1 min_score) scored))))
      unfolding finalize_paged
      finalize_paged-page index scored offset limit total_cap m fits selected =
          let fewer = length-keep (λ p. ge p.1 min_score) scored in
          let h = All-keep _ (λ p. ge p.1 min_score) scored (IsMap-All scored m) in
          ap (map (hydrate fl index))
            (cut scored (keep (λ p. ge p.1 min_score) scored) offset limit h (omega arith) selected)
