-- ===== src/Query/Boolean/Meaning.antt =====
-- `eval_boolean` gives each document the score that its clauses mean, if the clauses do.
use php_sdsearch.Prelude.{
  ℕ, suc, ◌≡◌, refl, sym, ap, ◌∙◌, arith, List, [], ◌∷◌, map, length, Option, none, some, Bool,
  true, false,
}
use php_sdsearch.Prelude.{◌&&◌, if◌then◌else◌, Bool-cases, inl, inr}
use mathlib.Core.Path.{ap₂}
use php_sdsearch.Floats.{Float}
use php_sdsearch.Maps.{contains, get, keys, unwrap_or, is_some}
use php_sdsearch.Maps.Laws.{contains-keys, IsMap, at, at-IsMap, list_of}
use php_sdsearch.Search.Scores.{allowed}
use php_sdsearch.Query.Boolean.{
  Eval, meet, Tally, add_entries, union_shoulds, narrow, raise_entries, raise_shoulds,
}
use php_sdsearch.Query.Boolean.Loops.{
  contains-meet, if_same, view, adds, raises, view-add_entries, view-raise_entries,
  IsMap-add_entries, IsMap-raise_entries,
}
use php_sdsearch.Query.Meaning.{Value, Count, add_value, add_all, raise_value, raise_all, all_some}

pub and_left : (a b : Bool) → (a && b) ≡ true → a ≡ true
and_left true b h = refl
and_left false b h = h

pub and_right : (a b : Bool) → (a && b) ≡ true → b ≡ true
and_right true b h = h
and_right false b h = absurd (ground arith)

-- Under any allow-list, a map that holds the value of each document that is allowed.
abbrev pub Implements : {F : Type 0} → Eval F → Value F → Type 0
Implements e v =
    (r : Option (List ℕ))
    → IsMap (e r) × ((d : ℕ) → get d (e r) ≡ (if allowed r d then v d else none))

pub data AllImplement {F : Type 0} : List (Eval F) → List (Value F) → Type 0 where
  nothing : AllImplement [] []
  also :
      {e : Eval F} {v : Value F} {es : List (Eval F)} {vs : List (Value F)}
      → Implements e v
      → AllImplement es vs
      → AllImplement (e ∷ es) (v ∷ vs)

module _ {F : Type 0} (fl : Float F) where
  adds-list_of : (o : Option F) (c : Count fl) → adds fl (list_of o) c ≡ add_value fl o c
  unfolding adds add_value
  adds-list_of none c = refl
  adds-list_of (some s) c = refl

  raises-list_of : (o : Option F) (c : Count fl) → raises fl (list_of o) c ≡ raise_value fl o c
  unfolding raises raise_value
  raises-list_of none (none, k) = refl
  raises-list_of none (some a, k) = refl
  raises-list_of (some s) (none, k) = refl
  raises-list_of (some s) (some a, k) = refl

  module _ (e : Eval F) (v : Value F) (r : Option (List ℕ)) (d : ℕ) (h : Implements e v) where
    pub get-allowed : allowed r d ≡ true → get d (e r) ≡ v d
    get-allowed y = (h r).1 d ∙ rw y refl

    pub get-forbidden : allowed r d ≡ false → get d (e r) ≡ none
    get-forbidden n = (h r).1 d ∙ rw n refl

    at-allowed : allowed r d ≡ true → at d (e r) ≡ list_of (v d)
    at-allowed y = at-IsMap d (e r) (h r).0 ∙ ap list_of (get-allowed y)

    at-forbidden : allowed r d ≡ false → at d (e r) ≡ []
    at-forbidden n = at-IsMap d (e r) (h r).0 ∙ ap list_of (get-forbidden n)

    pub contains-allowed : allowed r d ≡ true → contains (keys (e r)) d ≡ is_some (v d)
    contains-allowed y = contains-keys (e r) d ∙ ap is_some (get-allowed y)

    pub contains-both : (allowed r d && contains (keys (e r)) d) ≡ (allowed r d && is_some (v d))
    contains-both = elim (Bool-cases (allowed r d)) [
      | inl y ↦ rw y (contains-allowed y)
      | inr n ↦ rw n refl
    ]

  pub union_shoulds_lem :
      {es : List (Eval F)} {vs : List (Value F)} (r : Option (List ℕ)) (d : ℕ) (t : Tally fl)
      → AllImplement es vs
      → view fl d (union_shoulds fl es r t)
        ≡ (if allowed r d then add_all fl vs d (view fl d t) else view fl d t)
  unfolding union_shoulds add_all
  union_shoulds_lem r d t nothing = sym (if_same fl (allowed r d) (view fl d t))
  union_shoulds_lem r d t (also {e} {v} h rest) = elim (Bool-cases (allowed r d)) [
    | inl y ↦
        union_shoulds_lem r d (add_entries fl (e r) t) rest
        ∙ rw
            (
              y,
              view-add_entries fl d (e r) t,
              at-allowed e v r d h y,
              adds-list_of (v d) (view fl d t),
            )
            refl
    | inr n ↦
        union_shoulds_lem r d (add_entries fl (e r) t) rest
        ∙ rw (n, view-add_entries fl d (e r) t, at-forbidden e v r d h n) (unfold adds in refl)
  ]

  pub IsMap-union_shoulds :
      {es : List (Eval F)} {vs : List (Value F)} (r : Option (List ℕ)) (t : Tally fl)
      → AllImplement es vs
      → IsMap t.score
      → IsMap (union_shoulds fl es r t).score
  unfolding union_shoulds
  IsMap-union_shoulds r t nothing h = h
  IsMap-union_shoulds r t (also {e} i rest) h =
      IsMap-union_shoulds r (add_entries fl (e r) t) rest (IsMap-add_entries fl (e r) t h)

  left :
      (cand : Option (List ℕ)) (m : List (ℕ × F)) (d : ℕ)
      → allowed (some (meet cand (keys m))) d ≡ (allowed cand d && contains (keys m) d)
  unfolding allowed
  left cand m d = contains-meet cand (keys m) d

  -- The candidates that the musts leave are those where all of them have a value.
  pub narrow_allowed :
      {es : List (Eval F)} {vs : List (Value F)} (cand : Option (List ℕ)) (d : ℕ)
      → AllImplement es vs
      → allowed (narrow fl es cand).1 d ≡ (allowed cand d && all_some fl vs d)
  unfolding narrow all_some
  narrow_allowed cand d nothing = ground arith
  narrow_allowed cand d (also {e} {v} {vs = vs} h rest) =
      narrow_allowed (some (meet cand (keys (e cand)))) d rest
      ∙ ap (λ b. b && all_some fl vs d) (left cand (e cand) d ∙ contains-both e v cand d h)
      ∙ ground arith

  abbrev pub or_zero : Option F → F
  or_zero o = unwrap_or o (fl.decimal 0 0)

  -- In the maps of the musts, a candidate that is left has the value of each must.
  pub narrow_values :
      {es : List (Eval F)} {vs : List (Value F)} (cand : Option (List ℕ)) (d : ℕ)
      → AllImplement es vs
      → allowed cand d ≡ true
      → all_some fl vs d ≡ true
      → map (λ m. or_zero (get d m)) (narrow fl es cand).0 ≡ map (λ v. or_zero (v d)) vs
  unfolding narrow all_some
  narrow_values cand d nothing y all = refl
  narrow_values cand d (also {e} {v} h rest) y all =
      ap₂ (λ a b. a ∷ b) (ap or_zero (get-allowed e v cand d h y))
        (narrow_values (some (meet cand (keys (e cand)))) d rest
          (left cand (e cand) d
            ∙ contains-both e v cand d h
            ∙ rw y (and_left (is_some (v d)) _ all))
          (and_right (is_some (v d)) _ all))

  pub length-narrow :
      {es : List (Eval F)} {vs : List (Value F)} (cand : Option (List ℕ))
      → AllImplement es vs
      → length (narrow fl es cand).0 ≡ length vs
  unfolding narrow
  length-narrow cand nothing = refl
  length-narrow cand (also {e} h rest) =
      ap suc (length-narrow (some (meet cand (keys (e cand)))) rest)

  pub raise_shoulds_lem :
      {es : List (Eval F)} {vs : List (Value F)} (cand : List ℕ) (d : ℕ) (t : Tally fl)
      → AllImplement es vs
      → contains cand d ≡ true
      → view fl d (raise_shoulds fl es cand t) ≡ raise_all fl vs d (view fl d t)
  unfolding raise_shoulds raise_all
  raise_shoulds_lem cand d t nothing y = refl
  raise_shoulds_lem cand d t (also {e} {v} h rest) y =
      raise_shoulds_lem cand d (raise_entries fl (e (some cand)) t) rest y
      ∙ rw
          (
            view-raise_entries fl d (e (some cand)) t,
            at-allowed e v (some cand) d h (unfold allowed in y),
            raises-list_of (v d) (view fl d t),
          )
          refl

  -- A document that is no candidate has no score, and gains none.
  pub raise_shoulds_none :
      {es : List (Eval F)} {vs : List (Value F)} (cand : List ℕ) (d : ℕ) (t : Tally fl)
      → AllImplement es vs
      → contains cand d ≡ false
      → view fl d (raise_shoulds fl es cand t) ≡ view fl d t
  unfolding raise_shoulds
  raise_shoulds_none cand d t nothing n = refl
  raise_shoulds_none cand d t (also {e} {v} h rest) n =
      raise_shoulds_none cand d (raise_entries fl (e (some cand)) t) rest n
      ∙ rw
          (
            view-raise_entries fl d (e (some cand)) t,
            at-forbidden e v (some cand) d h (unfold allowed in n),
          )
          (unfold raises in refl)

  pub IsMap-raise_shoulds :
      {es : List (Eval F)} {vs : List (Value F)} (cand : List ℕ) (t : Tally fl)
      → AllImplement es vs
      → IsMap t.score
      → IsMap (raise_shoulds fl es cand t).score
  unfolding raise_shoulds
  IsMap-raise_shoulds cand t nothing h = h
  IsMap-raise_shoulds cand t (also {e} i rest) h =
      IsMap-raise_shoulds cand (raise_entries fl (e (some cand)) t) rest
        (IsMap-raise_entries fl (e (some cand)) t h)
