-- ===== src/Search/Paging/Sorting.antt =====
-- `sort_by` on a list whose elements are in a total order.
use php_sdsearch.Prelude.{
  ◌≡◌, refl, sym, ap, ◌∙◌, List, [], ◌∷◌, ◌++◌, Bool, true, false, All, arith, Bool-cases, inl, inr,
}
use php_sdsearch.Strings.{place, sort_by}
use mathlib.Core.Ordering.{Ordering, lt, eq, gt}
use mathlib.Core.List.{Permᴰ}
use mathlib.Core.Path.{subst, ap₂}

abbrev pub is_gt : Ordering → Bool
is_gt gt = true
is_gt lt = false
is_gt eq = false

abbrev pub reverse : Ordering → Ordering
reverse lt = gt
reverse eq = eq
reverse gt = lt

module _ {ℓ} {A : Type ℓ} (cmp : A → A → Ordering) where
  pub place_front :
      (x y : A) (ys : List A) → is_gt (cmp x y) ≡ false → place cmp x (y ∷ ys) ≡ x ∷ y ∷ ys
  unfolding place
  place_front x y ys h = go (cmp x y) h
    where
      go :
          (o : Ordering)
          → is_gt o ≡ false
          → elim o [ gt ↦ y ∷ place cmp x ys | _ ↦ x ∷ y ∷ ys ] ≡ x ∷ y ∷ ys
      go lt h = refl
      go eq h = refl
      go gt h = absurd (ground arith)

  pub place_behind :
      (x y : A) (ys : List A) → is_gt (cmp x y) ≡ true → place cmp x (y ∷ ys) ≡ y ∷ place cmp x ys
  unfolding place
  place_behind x y ys h = go (cmp x y) h
    where
      go :
          (o : Ordering)
          → is_gt o ≡ true
          → elim o [ gt ↦ y ∷ place cmp x ys | _ ↦ x ∷ y ∷ ys ] ≡ y ∷ place cmp x ys
      go lt h = absurd (ground arith)
      go eq h = absurd (ground arith)
      go gt h = refl

  All-place {κ} : (P : A → Type κ) (x : A) (ys : List A) → P x → All P ys → All P (place cmp x ys)
  All-place P x [] h k = unfold place in (h, tt)
  All-place P x (y ∷ ys) h k = elim (Bool-cases (is_gt (cmp x y))) [
    | inl g ↦ rw (place_behind x y ys g) (k.0, All-place P x ys h k.1)
    | inr g ↦ rw (place_front x y ys g) (h, k)
  ]

  All-sort_by {κ} : (P : A → Type κ) (xs : List A) → All P xs → All P (sort_by cmp xs)
  unfolding sort_by
  All-sort_by P [] h = tt
  All-sort_by P (x ∷ xs) h = All-place P x (sort_by cmp xs) h.0 (All-sort_by P xs h.1)

  -- No element of the list is before `x`.
  abbrev pub Leads : A → List A → Type 0
  Leads x ys = All (λ y. is_gt (cmp x y) ≡ false) ys

  place_leading : (x : A) (zs : List A) → Leads x zs → place cmp x zs ≡ x ∷ zs
  place_leading x [] h = unfold place in refl
  place_leading x (z ∷ zs) h = place_front x z zs h.0

  place-append :
      (x : A) (ys zs : List A) → Leads x zs → place cmp x (ys ++ zs) ≡ place cmp x ys ++ zs
  place-append x [] zs h = unfold place in place_leading x zs h
  place-append x (y ∷ ys) zs h = elim (Bool-cases (is_gt (cmp x y))) [
    | inl g ↦
        place_behind x y (ys ++ zs) g
        ∙ ap (λ t. y ∷ t) (place-append x ys zs h)
        ∙ ap (λ t. t ++ zs) (sym (place_behind x y ys g))
    | inr g ↦ place_front x y (ys ++ zs) g ∙ ap (λ t. t ++ zs) (sym (place_front x y ys g))
  ]

  -- A list in two parts, the first of which is in front, is sorted part by part.
  pub sort_by-append :
      (xs zs : List A)
      → All (λ x. Leads x zs) xs
      → sort_by cmp (xs ++ zs) ≡ sort_by cmp xs ++ sort_by cmp zs
  unfolding sort_by
  sort_by-append [] zs h = refl
  sort_by-append (x ∷ xs) zs h =
      ap (place cmp x) (sort_by-append xs zs h.1)
      ∙ place-append x (sort_by cmp xs) (sort_by cmp zs) (All-sort_by _ zs h.0)

  -- The laws of a total order, on the elements in `P`.
  pub record IsTotal {κ} (P : A → Type κ) : Type (ℓ ⊔ κ) where
    pub dual : (x y : A) → P x → P y → cmp y x ≡ reverse (cmp x y)
    pub trans :
        (x y z : A)
        → P x
        → P y
        → P z
        → is_gt (cmp x y) ≡ false
        → is_gt (cmp y z) ≡ false
        → is_gt (cmp x z) ≡ false
    pub same : (x y : A) → P x → P y → cmp x y ≡ eq → x ≡ y

  module _ {κ} {P : A → Type κ} (total : IsTotal P) where
    place_comm_less :
        (x y : A) (l : List A)
        → P x
        → P y
        → All P l
        → is_gt (cmp x y) ≡ false
        → is_gt (cmp y x) ≡ true
        → place cmp x (place cmp y l) ≡ place cmp y (place cmp x l)
    place_comm_less x y [] px py pl h k =
        unfold place in place_front x y [] h ∙ sym (place_behind y x [] k)
    place_comm_less x y (z ∷ l) px py pl h k = elim (Bool-cases (is_gt (cmp y z))) [
      | inl g ↦ elim (Bool-cases (is_gt (cmp x z))) [
        | inl f ↦
            ap (place cmp x) (place_behind y z l g)
            ∙ place_behind x z (place cmp y l) f
            ∙ ap (λ t. z ∷ t) (place_comm_less x y l px py pl.1 h k)
            ∙ sym (place_behind y z (place cmp x l) g)
            ∙ ap (place cmp y) (sym (place_behind x z l f))
        | inr f ↦
            ap (place cmp x) (place_behind y z l g)
            ∙ place_front x z (place cmp y l) f
            ∙ ap (λ t. x ∷ t) (sym (place_behind y z l g))
            ∙ sym (place_behind y x (z ∷ l) k)
            ∙ ap (place cmp y) (sym (place_front x z l f))
      ]
      | inr g ↦
          let f = total.trans x y z px py pl.0 h g in
          ap (place cmp x) (place_front y z l g)
          ∙ place_front x y (z ∷ l) h
          ∙ ap (λ t. x ∷ t) (sym (place_front y z l g))
          ∙ sym (place_behind y x (z ∷ l) k)
          ∙ ap (place cmp y) (sym (place_front x z l f))
    ]

    place_comm :
        (x y : A) (l : List A)
        → P x
        → P y
        → All P l
        → place cmp x (place cmp y l) ≡ place cmp y (place cmp x l)
    place_comm x y l px py pl = go (cmp x y) refl
      where
        go :
            (o : Ordering) → cmp x y ≡ o → place cmp x (place cmp y l) ≡ place cmp y (place cmp x l)
        go lt e =
            place_comm_less x y l px py pl (ap is_gt e)
              (ap is_gt (total.dual x y px py ∙ ap reverse e))
        go eq e =
            let s = total.same x y px py e in ap₂ (λ a b. place cmp a (place cmp b l)) s (sym s)
        go gt e = sym (
            place_comm_less y x l py px pl (ap is_gt (total.dual x y px py ∙ ap reverse e))
              (ap is_gt e))

    pub All-perm : {xs ys : List A} → Permᴰ xs ys → All P xs → All P ys
    All-perm Permᴰ.nil h = h
    All-perm (Permᴰ.cons e p) h = (subst P e h.0, All-perm p h.1)
    All-perm (Permᴰ.swap e f) h = (subst P f h.1.0, (subst P e h.0, h.1.1))
    All-perm (Permᴰ.trans p q) h = All-perm q (All-perm p h)

    -- A total order sorts every permutation of a list alike.
    pub sort_by-perm : {xs ys : List A} → Permᴰ xs ys → All P xs → sort_by cmp xs ≡ sort_by cmp ys
    unfolding sort_by
    sort_by-perm Permᴰ.nil h = refl
    sort_by-perm (Permᴰ.cons e p) h = ap₂ (place cmp) e (sort_by-perm p h.1)
    sort_by-perm (Permᴰ.swap {a = a} {b = b} {l = l} e f) h =
        place_comm a b (sort_by cmp l) h.0 h.1.0 (All-sort_by P l h.1.1)
        ∙ ap₂ (λ x y. place cmp x (place cmp y (sort_by cmp l))) f e
    sort_by-perm (Permᴰ.trans p q) h = sort_by-perm p h ∙ sort_by-perm q (All-perm p h)
