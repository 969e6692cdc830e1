-- ===== src/Query/Boolean/Value.antt =====
-- `eval_boolean` gives each document the value that its clauses mean.
use php_sdsearch.Prelude.{
  ℕ, suc, ◌≡◌, refl, sym, ap, ◌∙◌, arith, List, [], ◌∷◌, length, Option, none, some, Bool, true,
  false,
}
use php_sdsearch.Prelude.{◌&&◌, if◌then◌else◌, Bool-cases, inl, inr}
use mathlib.Core.Path.{ap₂}
use php_sdsearch.Floats.{Float}
use php_sdsearch.Maps.{contains, get, keys, unwrap_or, is_some}
use php_sdsearch.Maps.Laws.{IsMap}
use php_sdsearch.Search.Scores.{allowed}
use php_sdsearch.Query.Boolean.{
  Eval, meet, Tally, union_shoulds, narrow, score_in, insert_candidates, eval_musts, tally,
}
use php_sdsearch.Query.Boolean.Loops.{
  contains-meet, view, view-insert_candidates, IsMap-insert_candidates,
}
use php_sdsearch.Query.Boolean.Meaning.{
  Implements, AllImplement, and_left, and_right, or_zero, nothing, also, contains-both, get-allowed,
  narrow_allowed, narrow_values, length-narrow, union_shoulds_lem, IsMap-union_shoulds,
  raise_shoulds_lem, raise_shoulds_none, IsMap-raise_shoulds,
}
use php_sdsearch.Query.Meaning.{Value, Count, raise_all, all_some, must_score, count}

module _ {F : Type 0} (fl : Float F) where
  abbrev no_tally : Tally fl
  no_tally = record { score = []; matched = [] }

  abbrev scored : F → ℕ → Count fl
  scored s k = (some s, k)

  none_left :
      (a b : Bool) (c : Count fl)
      → (a && b) ≡ false
      → (none, 0) ≡ (if a then (if b then c else (none, 0)) else (none, 0))
  none_left true true c h = absurd (ground arith)
  none_left true false c h = refl
  none_left false b c h = refl

  -- The tally of a document, behind the musts and the shoulds.
  abbrev pub counted : Option (List ℕ) → Count fl → ℕ → Count fl
  counted r c d = if allowed r d then c else (none, 0)

  last_of_three : (a b c : Bool) → ((a && b) && c) ≡ (a && (c && b))
  last_of_three true true c = ground arith
  last_of_three true false c = ground arith
  last_of_three false b c = refl

  module _ (e : Eval F) (v : Value F) (es : List (Eval F)) (vs : List (Value F))
      (r : Option (List ℕ)) (d : ℕ) (h : Implements e v) (musts : AllImplement es vs) where
    abbrev cand : Option (List ℕ)
    cand = (narrow fl es r).1

    abbrev final_cand : List ℕ
    final_cand = meet cand (keys (e cand))

    contains-final_cand : contains final_cand d ≡ (allowed r d && all_some fl (v ∷ vs) d)
    unfolding all_some
    contains-final_cand =
        contains-meet cand (keys (e cand)) d
        ∙ contains-both fl e v cand d h
        ∙ ap (λ b. b && is_some (v d)) (narrow_allowed fl r d musts)
        ∙ last_of_three (allowed r d) (all_some fl vs d) (is_some (v d))

    abbrev maps : List (List (ℕ × F))
    maps = e cand ∷ (narrow fl es r).0

    -- A candidate with its score and its count, before the shoulds.
    must_values :
        allowed r d ≡ true
        → all_some fl (v ∷ vs) d ≡ true
        → scored (score_in fl d maps) (length maps)
          ≡ scored (must_score fl (v ∷ vs) d) (length (v ∷ vs))
    unfolding all_some
    must_values y all =
        let rest : all_some fl vs d ≡ true = and_right (is_some (v d)) (all_some fl vs d) all in
        let still : allowed cand d ≡ true = narrow_allowed fl r d musts ∙ rw (y, rest) refl in
        ap₂ (λ xs n. scored (fl.sum xs) (suc n))
          (ap₂ (λ a b. a ∷ b) (ap (or_zero fl) (get-allowed fl e v cand d h still))
            (narrow_values fl r d musts y rest))
          (length-narrow fl r musts)

    module _ (ss : List (Eval F)) (ws : List (Value F)) (shoulds : AllImplement ss ws) where
      inserted : Tally fl
      inserted = insert_candidates fl maps (length maps) final_cand no_tally

      view-inserted :
          view fl d inserted
          ≡ (if contains final_cand d then scored (score_in fl d maps) (length maps) else (none, 0))
      unfolding inserted unwrap_or get
      view-inserted = view-insert_candidates fl maps (length maps) d final_cand no_tally

      inserted_in :
          contains final_cand d ≡ true
          → allowed r d ≡ true
          → all_some fl (v ∷ vs) d ≡ true
          → view fl d inserted ≡ scored (must_score fl (v ∷ vs) d) (length (v ∷ vs))
      inserted_in y a all = view-inserted ∙ rw y (must_values a all)

      eval_musts_lem : view fl d (eval_musts fl e es ss r) ≡ counted r (count fl (v ∷ vs) ws d) d
      unfolding eval_musts count inserted
      eval_musts_lem = elim (Bool-cases (contains final_cand d)) [
        | inl y ↦
            let both = sym contains-final_cand ∙ y in
            let a : allowed r d ≡ true = and_left (allowed r d) _ both in
            let all : all_some fl (v ∷ vs) d ≡ true = and_right (allowed r d) _ both in
            raise_shoulds_lem fl final_cand d inserted shoulds y
            ∙ ap (raise_all fl ws d) (inserted_in y a all)
            ∙ rw (a, all) refl
        | inr n ↦
            raise_shoulds_none fl final_cand d inserted shoulds n
            ∙ view-inserted
            ∙ rw n
                (none_left (allowed r d) (all_some fl (v ∷ vs) d) _ (sym contains-final_cand ∙ n))
      ]

  union_lem :
      {ss : List (Eval F)} {ws : List (Value F)} (r : Option (List ℕ)) (d : ℕ)
      → AllImplement ss ws
      → view fl d (union_shoulds fl ss r no_tally) ≡ counted r (count fl [] ws d) d
  unfolding count unwrap_or get
  union_lem r d shoulds = union_shoulds_lem fl r d no_tally shoulds

  pub tally_lem :
      {es : List (Eval F)} {vs : List (Value F)} {ss : List (Eval F)} {ws : List (Value F)}
      (r : Option (List ℕ)) (d : ℕ)
      → AllImplement es vs
      → AllImplement ss ws
      → view fl d (tally fl es ss r) ≡ counted r (count fl vs ws d) d
  unfolding tally
  tally_lem r d nothing shoulds = union_lem r d shoulds
  tally_lem {ss = ss} {ws = ws} r d (also {e} {v} {es} {vs} h musts) shoulds =
      eval_musts_lem e v es vs r d h musts ss ws shoulds

  IsMap-eval_musts :
      (e : Eval F) (es : List (Eval F)) {ss : List (Eval F)} {ws : List (Value F)}
      (r : Option (List ℕ))
      → AllImplement ss ws
      → IsMap (eval_musts fl e es ss r).score
  unfolding eval_musts
  IsMap-eval_musts e es r shoulds =
      let maps : List (List (ℕ × F)) = e (narrow fl es r).1 ∷ (narrow fl es r).0 in
      let cand : List ℕ = meet (narrow fl es r).1 (keys (e (narrow fl es r).1)) in
      IsMap-raise_shoulds fl cand (insert_candidates fl maps (length maps) cand no_tally) shoulds
        (IsMap-insert_candidates fl maps (length maps) cand no_tally tt)

  pub IsMap-tally :
      {es : List (Eval F)} {vs : List (Value F)} {ss : List (Eval F)} {ws : List (Value F)}
      (r : Option (List ℕ))
      → AllImplement es vs
      → AllImplement ss ws
      → IsMap (tally fl es ss r).score
  unfolding tally
  IsMap-tally r nothing shoulds = IsMap-union_shoulds fl r no_tally shoulds tt
  IsMap-tally r (also {e} {v} {es} {vs} h musts) shoulds = IsMap-eval_musts e es r shoulds
