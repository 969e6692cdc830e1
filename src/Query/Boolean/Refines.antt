-- ===== src/Query/Boolean/Refines.antt =====
-- `eval_boolean` refines `value_boolean`: what is excluded, the last step, and the whole.
use php_sdsearch.Prelude.{
  ℕ, suc, ◌+◌, ◌≡◌, refl, sym, ap, ◌∙◌, arith, List, [], ◌∷◌, length, Option, none, some, Bool,
  true, false,
}
use php_sdsearch.Prelude.{◌||◌, if◌then◌else◌, Bool-cases, inl, inr}
use mathlib.Core.Path.{ap₂}
use Prim.Native.Nat.{max}
use php_sdsearch.Floats.{Float}
use php_sdsearch.Maps.{contains, is_empty, get, keys, is_some}
use php_sdsearch.Maps.Laws.{contains-keys, IsMap, get-map_values, IsMap-map_values, map_option}
use php_sdsearch.Search.Scores.{allowed}
use php_sdsearch.Query.Boolean.{
  Occur, should, must, must_not, same_occur, clauses_of, Eval, Tally, tally, remove_all, exclude,
  exclude_mustnots, eval_boolean,
}
use php_sdsearch.Query.Boolean.Loops.{view, view-remove_all, IsMap-remove_all}
use php_sdsearch.Query.Boolean.Meaning.{Implements, AllImplement, nothing, also, contains-allowed}
use php_sdsearch.Query.Boolean.Value.{counted, tally_lem, IsMap-tally}
use php_sdsearch.Query.Meaning.{Value, Count, any_some, count, value_boolean}

-- Clauses whose queries implement the values of other clauses, with the same occurrences.
pub data ClausesImplement {F : Type 0}
    : List (Occur × Eval F) → List (Occur × Value F) → Type 0 where
  no_more : ClausesImplement [] []
  one_more :
      {o : Occur} {e : Eval F} {v : Value F} {es : List (Occur × Eval F)}
      {vs : List (Occur × Value F)}
      → Implements e v
      → ClausesImplement es vs
      → ClausesImplement ((o, e) ∷ es) ((o, v) ∷ vs)

clauses_of-AllImplement :
    {F : Type 0} {es : List (Occur × Eval F)} {vs : List (Occur × Value F)} (o : Occur)
    → ClausesImplement es vs
    → AllImplement (clauses_of o es) (clauses_of o vs)
unfolding clauses_of
clauses_of-AllImplement o no_more = nothing
clauses_of-AllImplement o (one_more {o = o'} h rest) = elim (Bool-cases (same_occur o' o)) [
  | inl y ↦ rw y (also h (clauses_of-AllImplement o rest))
  | inr n ↦ rw n (clauses_of-AllImplement o rest)
]

length-AllImplement :
    {F : Type 0} {es : List (Eval F)} {vs : List (Value F)}
    → AllImplement es vs
    → length es ≡ length vs
length-AllImplement nothing = refl
length-AllImplement (also h rest) = ap suc (length-AllImplement rest)

module _ {F : Type 0} (fl : Float F) where
  -- What is excluded.
  exclude_lem :
      {es : List (Eval F)} {vs : List (Value F)} (set : List ℕ) (d : ℕ) (t : Tally fl)
      → AllImplement es vs
      → contains set d ≡ true
      → view fl d (exclude fl es set t) ≡ (if any_some fl vs d then (none, 0) else view fl d t)
  unfolding exclude any_some
  exclude_lem set d t nothing y = refl
  exclude_lem set d t (also {e} {v} {es} {vs} h rest) y =
      exclude_lem set d (remove_all fl (keys (e (some set))) t) rest y
      ∙ rw
          (
            view-remove_all fl d (keys (e (some set))) t,
            contains-allowed fl e v (some set) d h (unfold allowed in y),
          )
          (orders (is_some (v d)) (any_some fl vs d) (view fl d t))
    where
      orders :
          (a b : Bool) (c : Count fl)
          → (if b then (none, 0) else (if a then (none, 0) else c))
            ≡ (if a || b then (none, 0) else c)
      orders true true c = refl
      orders true false c = refl
      orders false b c = refl

  IsMap-exclude :
      {es : List (Eval F)} {vs : List (Value F)} (set : List ℕ) (t : Tally fl)
      → AllImplement es vs
      → IsMap t.score
      → IsMap (exclude fl es set t).score
  unfolding exclude
  IsMap-exclude set t nothing h = h
  IsMap-exclude set t (also {e} i rest) h =
      IsMap-exclude set (remove_all fl (keys (e (some set))) t) rest
        (IsMap-remove_all fl (keys (e (some set))) t h)

  IsMap-exclude_mustnots :
      {es : List (Eval F)} {vs : List (Value F)} (t : Tally fl)
      → AllImplement es vs
      → IsMap t.score
      → IsMap (exclude_mustnots fl es t).score
  unfolding exclude_mustnots
  IsMap-exclude_mustnots t all h = elim (Bool-cases (is_empty t.score)) [
    | inl y ↦ rw y h
    | inr n ↦ rw n (IsMap-exclude (keys t.score) t all h)
  ]

  exclude-none :
      (es : List (Eval F)) (set : List ℕ) (d : ℕ) (t : Tally fl)
      → get d t.score ≡ none
      → get d (exclude fl es set t).score ≡ none
  unfolding exclude
  exclude-none [] set d t h = h
  exclude-none (e ∷ es) set d t h = exclude-none es set d (remove_all fl (keys (e (some set))) t) (
      ap (λ c. c.0) (view-remove_all fl d (keys (e (some set))) t)
      ∙ gone (contains (keys (e (some set))) d))
    where
      gone : (b : Bool) → (if b then (none, 0) else view fl d t).0 ≡ none
      gone true = refl
      gone false = h

  not_empty : (d : ℕ) (m : List (ℕ × F)) → is_empty m ≡ true → get d m ≡ none
  unfolding is_empty get
  not_empty d [] h = refl
  not_empty d (x ∷ m) h = absurd (ground arith)

  -- The score with its share of the clauses.
  abbrev weigh : ℕ → Count fl → Option F
  weigh n c = map_option (λ a. fl.mul a (fl.div (fl.of_nat c.1) (fl.of_nat (max n 1)))) c.0

  exclude_mustnots-none :
      (es : List (Eval F)) (d : ℕ) (t : Tally fl)
      → get d t.score ≡ none
      → get d (exclude_mustnots fl es t).score ≡ none
  unfolding exclude_mustnots
  exclude_mustnots-none es d t h = elim (Bool-cases (is_empty t.score)) [
    | inl y ↦ rw y h
    | inr n ↦ rw n (exclude-none es (keys t.score) d t h)
  ]

  weigh-if :
      (n : ℕ) (b : Bool) (c : Count fl)
      → weigh n (if b then (none, 0) else c) ≡ (if b then none else weigh n c)
  weigh-if n true c = refl
  weigh-if n false c = refl

  weigh-none :
      (n : ℕ) (b : Bool) (c : Count fl) → c.0 ≡ none → (if b then none else weigh n c) ≡ none
  weigh-none n true c h = refl
  weigh-none n false c h = rw h refl

  exclude_mustnots_some :
      {es : List (Eval F)} {vs : List (Value F)} (n d : ℕ) (t : Tally fl)
      → AllImplement es vs
      → is_some (get d t.score) ≡ true
      → is_empty t.score ≡ false
      → weigh n (view fl d (exclude_mustnots fl es t))
        ≡ (if any_some fl vs d then none else weigh n (view fl d t))
  unfolding exclude_mustnots
  exclude_mustnots_some {vs = vs} n d t all y e = rw e (
      ap (weigh n) (exclude_lem (keys t.score) d t all (contains-keys t.score d ∙ y))
      ∙ weigh-if n (any_some fl vs d) (view fl d t))

  exclude_mustnots_lem :
      {es : List (Eval F)} {vs : List (Value F)} (n d : ℕ) (t : Tally fl)
      → AllImplement es vs
      → weigh n (view fl d (exclude_mustnots fl es t))
        ≡ (if any_some fl vs d then none else weigh n (view fl d t))
  exclude_mustnots_lem {es} {vs} n d t all = go (get d t.score) refl
    where
      absent :
          get d t.score ≡ none
          → weigh n (view fl d (exclude_mustnots fl es t))
            ≡ (if any_some fl vs d then none else weigh n (view fl d t))
      absent h =
          weigh-none n false (view fl d (exclude_mustnots fl es t)) (exclude_mustnots-none es d t h)
          ∙ sym (weigh-none n (any_some fl vs d) (view fl d t) h)

      go :
          (o : Option F)
          → get d t.score ≡ o
          → weigh n (view fl d (exclude_mustnots fl es t))
            ≡ (if any_some fl vs d then none else weigh n (view fl d t))
      go none h = absent h
      go (some a) h = elim (Bool-cases (is_empty t.score)) [
        | inl e ↦ absent (not_empty d t.score e)
        | inr e ↦ exclude_mustnots_some n d t all (ap is_some h) e
      ]

  weigh-counted :
      (r : Option (List ℕ)) (n d : ℕ) (b : Bool) (c : Count fl)
      → (if b then none else weigh n (counted fl r c d))
        ≡ (if allowed r d then (if b then none else weigh n c) else none)
  weigh-counted r n d b c = elim (Bool-cases (allowed r d)) [
    | inl y ↦ rw y refl
    | inr no_hit ↦ rw no_hit (weigh-none n b (none, 0) refl)
  ]

  -- Under any allow-list, `eval_boolean` gives exactly the documents of the list that
  -- `value_boolean` gives a score, with that score, if each clause does so for its own value.
  pub eval_boolean-value_boolean :
      {es : List (Occur × Eval F)} {vs : List (Occur × Value F)}
      → ClausesImplement es vs
      → Implements (eval_boolean fl es) (value_boolean fl vs)
  unfolding eval_boolean value_boolean
  eval_boolean-value_boolean {es} {vs} h r =
      let musts = clauses_of-AllImplement must h in
      let shoulds = clauses_of-AllImplement should h in
      let nots = clauses_of-AllImplement must_not h in
      let t : Tally fl = tally fl (clauses_of must es) (clauses_of should es) r in
      let left : Tally fl = exclude_mustnots fl (clauses_of must_not es) t in
      let n : ℕ = length (clauses_of must es) + length (clauses_of should es) in
      let m : ℕ = length (clauses_of must vs) + length (clauses_of should vs) in
      let same : n ≡ m =
        ap₂ (λ a b. a + b) (length-AllImplement musts) (length-AllImplement shoulds) in
      (
        IsMap-map_values _ left.score
            (IsMap-exclude_mustnots t nots (IsMap-tally fl r musts shoulds)),
        λ d.
            get-map_values _ d left.score
            ∙ exclude_mustnots_lem n d t nots
            ∙ ap (λ c. if any_some fl (clauses_of must_not vs) d then none else weigh n c)
                (tally_lem fl r d musts shoulds)
            ∙ weigh-counted r n d (any_some fl (clauses_of must_not vs) d)
                (count fl (clauses_of must vs) (clauses_of should vs) d)
            ∙ ap
                (λ k.
                  if allowed r d
                  then (if any_some fl (clauses_of must_not vs) d
                      then none
                      else weigh k (count fl (clauses_of must vs) (clauses_of should vs) d))
                  else none)
                same,
      )
