-- ===== src/Search/Paging/Selection.antt =====
-- What the standard library promises of `select_nth_unstable_by`.
use php_sdsearch.Prelude.{
  ℕ, suc, ◌≡◌, refl, sym, ap, ◌∙◌, List, [], ◌∷◌, ◌++◌, false, All, length, take,
  take-length-append, Bool-cases, inl, inr,
}
use php_sdsearch.Strings.{place, sort_by}
use php_sdsearch.Search.Paging.Sorting.{
  is_gt, place_front, place_behind, Leads, IsTotal, All-perm, sort_by-perm, sort_by-append,
}
use mathlib.Core.Ordering.{Ordering}
use mathlib.Core.List.{Permᴰ}
use mathlib.Core.Path.{subst, ap₂}

module _ {ℓ} {A : Type ℓ} (cmp : A → A → Ordering) where
  -- `ys` is `xs` in another order: what stands in front of the element at `n` is not greater than
  -- it, what stands behind it is not less, and nothing is said of the order among them.
  pub record Selected (n : ℕ) (xs ys : List A) : Type ℓ where
    pub front : List A
    pub nth : A
    pub back : List A
    pub parts : ys ≡ front ++ (nth ∷ back)
    pub count : length front ≡ n
    pub perm : Permᴰ xs ys
    pub before : All (λ x. is_gt (cmp x nth) ≡ false) front
    pub behind : All (λ y. is_gt (cmp nth y) ≡ false) back

  length-place : (x : A) (ys : List A) → length (place cmp x ys) ≡ suc (length ys)
  length-place x [] = unfold place in refl
  length-place x (y ∷ ys) = elim (Bool-cases (is_gt (cmp x y))) [
    | inl g ↦ ap length (place_behind cmp x y ys g) ∙ ap suc (length-place x ys)
    | inr g ↦ ap length (place_front cmp x y ys g)
  ]

  length-sort_by : (xs : List A) → length (sort_by cmp xs) ≡ length xs
  unfolding sort_by
  length-sort_by [] = refl
  length-sort_by (x ∷ xs) = length-place x (sort_by cmp xs) ∙ ap suc (length-sort_by xs)

  All-parts {κ} : (P : A → Type κ) (xs zs : List A) → All P (xs ++ zs) → All P xs × All P zs
  All-parts P [] zs h = (tt, h)
  All-parts P (x ∷ xs) zs h = let r = All-parts P xs zs h.1 in ((h.0, r.0), r.1)

  module _ {κ} {P : A → Type κ} (total : IsTotal cmp P) where
    All-Leads :
        (x m : A) (zs : List A)
        → P x
        → P m
        → All P zs
        → is_gt (cmp x m) ≡ false
        → Leads cmp m zs
        → Leads cmp x zs
    All-Leads x m [] px pm pz h k = tt
    All-Leads x m (z ∷ zs) px pm pz h k =
        (total.trans x m z px pm pz.0 h k.0, All-Leads x m zs px pm pz.1 h k.1)

    parts-Leads :
        (xs zs : List A) (m : A)
        → All P xs
        → P m
        → All P zs
        → All (λ x. is_gt (cmp x m) ≡ false) xs
        → Leads cmp m zs
        → All (λ x. Leads cmp x (m ∷ zs)) xs
    parts-Leads [] zs m px pm pz h k = tt
    parts-Leads (x ∷ xs) zs m px pm pz h k =
        ((h.0, All-Leads x m zs px.0 pm pz h.0 k), parts-Leads xs zs m px.1 pm pz h.1 k)

    -- The selected elements, sorted, are the first ones of the sorted list.
    pub sort_by-Selected :
        (n : ℕ) (xs ys : List A)
        → All P xs
        → Selected n xs ys
        → sort_by cmp (take n ys) ≡ take n (sort_by cmp xs)
    sort_by-Selected n xs ys h s =
        let p = subst (All P) s.parts (All-perm cmp total s.perm h) in
        let r = All-parts P s.front (s.nth ∷ s.back) p in
        let first = parts-Leads s.front s.back s.nth r.0 r.1.0 r.1.1 s.before s.behind in
        let tail = sort_by cmp (s.nth ∷ s.back) in
        ap (sort_by cmp)
          (ap₂ take (sym s.count) s.parts ∙ take-length-append s.front (s.nth ∷ s.back))
        ∙ sym (take-length-append (sort_by cmp s.front) tail)
        ∙ ap₂ take (length-sort_by s.front ∙ s.count) (
            sym (sort_by-append cmp s.front (s.nth ∷ s.back) first)
            ∙ ap (sort_by cmp) (sym s.parts)
            ∙ sym (sort_by-perm cmp total s.perm h))
