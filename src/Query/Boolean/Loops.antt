-- ===== src/Query/Boolean/Loops.antt =====
-- What each loop of `eval_boolean` does to the score and the count of one document.
use php_sdsearch.Prelude.{
  ℕ, ◌+◌, ◌≡◌, refl, ap, ◌∙◌, arith, List, [], ◌∷◌, Option, none, some, Bool, true, false,
}
use php_sdsearch.Prelude.{◌&&◌, ◌==◌, if◌then◌else◌, Bool-cases, inl, inr}
use php_sdsearch.Floats.{Float}
use php_sdsearch.Maps.{contains, get, insert, unwrap_or, is_some}
use php_sdsearch.Maps.Laws.{
  contains-keep, get-update, get-remove, IsMap, IsMap-update, IsMap-remove, at,
}
use php_sdsearch.Search.Scores.{allowed}
use php_sdsearch.Query.Boolean.{
  intersect_in_place, meet, Tally, add_score, count_match, add_entries, score_in, insert_candidates,
  raise_entries, remove_all,
}
use php_sdsearch.Query.Meaning.{Count, add_value, raise_value}

pub contains-intersect_in_place :
    (a b : List ℕ) (d : ℕ) → contains (intersect_in_place a b) d ≡ (contains a d && contains b d)
unfolding intersect_in_place
contains-intersect_in_place a b d =
    ground (arith, contains-keep (contains b) a d, contains-keep (contains a) b d)

pub contains-meet :
    (cand : Option (List ℕ)) (set : List ℕ) (d : ℕ)
    → contains (meet cand set) d ≡ (allowed cand d && contains set d)
unfolding meet allowed
contains-meet none set d = refl
contains-meet (some prev) set d = contains-intersect_in_place prev set d

module _ {F : Type 0} (fl : Float F) where
  abbrev pub view : ℕ → Tally fl → Count fl
  view d t = (get d t.score, unwrap_or (get d t.matched) 0)

  abbrev added : ℕ → F → Tally fl → Tally fl
  added k s t = record { score = add_score fl k s t.score; matched = count_match fl k t.matched }

  pub view-added :
      (d k : ℕ) (s : F) (t : Tally fl)
      → view d (added k s t) ≡ (if k == d then add_value fl (some s) (view d t) else view d t)
  unfolding add_value unwrap_or
  view-added d k s t =
      rw
        (
          get-update k d (λ o. fl.add (unwrap_or o (fl.decimal 0 0)) s) t.score,
          get-update k d (λ o. unwrap_or o 0 + 1) t.matched,
        )
        (elim (Bool-cases (k == d)) [ inl e ↦ rw e refl | inr e ↦ rw e refl ])

  -- The values of a document, one after the other.
  unfoldable pub adds : List F → Count fl → Count fl
  adds [] c = c
  adds (s ∷ values) c = adds values (add_value fl (some s) c)

  pub view-add_entries :
      (d : ℕ) (m : List (ℕ × F)) (t : Tally fl)
      → view d (add_entries fl m t) ≡ adds (at d m) (view d t)
  unfolding add_entries adds at
  view-add_entries d [] t = refl
  view-add_entries d ((k, s) ∷ m) t =
      view-add_entries d m (added k s t)
      ∙ ap (adds (at d m)) (view-added d k s t)
      ∙ elim (Bool-cases (k == d)) [ inl e ↦ rw e refl | inr e ↦ rw e refl ]

  unfoldable pub raises : List F → Count fl → Count fl
  raises [] c = c
  raises (s ∷ values) c = raises values (raise_value fl (some s) c)

  abbrev raised : ℕ → F → Tally fl → Tally fl
  raised k s t = if is_some (get k t.score) then added k s t else t

  -- A document without a score is left alone; one with a score gains `s`.
  raise-nothing :
      (d : ℕ) (s : F) (t : Tally fl)
      → get d t.score ≡ none
      → view d t ≡ raise_value fl (some s) (view d t)
  unfolding raise_value
  raise-nothing d s t h = rw h refl

  raise-something :
      (d : ℕ) (s a : F) (t : Tally fl)
      → get d t.score ≡ some a
      → add_value fl (some s) (view d t) ≡ raise_value fl (some s) (view d t)
  unfolding raise_value add_value unwrap_or
  raise-something d s a t h = rw h refl

  pub view-raised :
      (d k : ℕ) (s : F) (t : Tally fl)
      → view d (raised k s t) ≡ (if k == d then raise_value fl (some s) (view d t) else view d t)
  view-raised d k s t = go (get k t.score) refl
    where
      go :
          (o : Option F)
          → get k t.score ≡ o
          → view d (raised k s t)
            ≡ (if k == d then raise_value fl (some s) (view d t) else view d t)
      go none h = rw h (elim (Bool-cases (k == d)) [
        | inl e ↦ let same : k ≡ d = ground arith in rw e (raise-nothing d s t (rw same at h))
        | inr e ↦ rw e refl
      ])
      go (some a) h = rw h (
          view-added d k s t ∙ elim (Bool-cases (k == d)) [
            | inl e ↦
                let same : k ≡ d = ground arith in rw e (raise-something d s a t (rw same at h))
            | inr e ↦ rw e refl
          ])

  pub view-raise_entries :
      (d : ℕ) (m : List (ℕ × F)) (t : Tally fl)
      → view d (raise_entries fl m t) ≡ raises (at d m) (view d t)
  unfolding raise_entries raises at
  view-raise_entries d [] t = refl
  view-raise_entries d ((k, s) ∷ m) t =
      view-raise_entries d m (raised k s t)
      ∙ ap (raises (at d m)) (view-raised d k s t)
      ∙ elim (Bool-cases (k == d)) [ inl e ↦ rw e refl | inr e ↦ rw e refl ]

  pub if_same : (b : Bool) (c : Count fl) → (if b then c else c) ≡ c
  if_same true c = refl
  if_same false c = refl

  pub view-insert_candidates :
      (maps : List (List (ℕ × F))) (n d : ℕ) (cands : List ℕ) (t : Tally fl)
      → view d (insert_candidates fl maps n cands t)
        ≡ (if contains cands d then (some (score_in fl d maps), n) else view d t)
  unfolding insert_candidates contains insert unwrap_or
  view-insert_candidates maps n d [] t = refl
  view-insert_candidates maps n d (k ∷ cands) t =
      view-insert_candidates maps n d cands _
      ∙ rw (get-update k d (λ o. score_in fl k maps) t.score, get-update k d (λ o. n) t.matched)
          (elim (Bool-cases (k == d)) [
            | inl e ↦ let same : k ≡ d = ground arith in rw (e, same) (if_same (contains cands d) _)
            | inr e ↦ rw e refl
          ])

  pub view-remove_all :
      (d : ℕ) (ds : List ℕ) (t : Tally fl)
      → view d (remove_all fl ds t) ≡ (if contains ds d then (none, 0) else view d t)
  unfolding remove_all contains unwrap_or
  view-remove_all d [] t = refl
  view-remove_all d (k ∷ ds) t =
      view-remove_all d ds _
      ∙ rw (get-remove k d t.score, get-remove k d t.matched)
          (elim (Bool-cases (k == d)) [
            | inl e ↦ rw e (if_same (contains ds d) (none, 0))
            | inr e ↦ rw e refl
          ])

  -- The scores stay a map.
  pub IsMap-add_entries :
      (m : List (ℕ × F)) (t : Tally fl) → IsMap t.score → IsMap (add_entries fl m t).score
  unfolding add_entries
  IsMap-add_entries [] t h = h
  IsMap-add_entries ((k, s) ∷ m) t h = IsMap-add_entries m _ (IsMap-update k _ t.score h)

  pub IsMap-raise_entries :
      (m : List (ℕ × F)) (t : Tally fl) → IsMap t.score → IsMap (raise_entries fl m t).score
  unfolding raise_entries
  IsMap-raise_entries [] t h = h
  IsMap-raise_entries ((k, s) ∷ m) t h = IsMap-raise_entries m _ (go (is_some (get k t.score)))
    where
      go : (b : Bool) → IsMap (if b then added k s t else t).score
      go true = IsMap-update k _ t.score h
      go false = h

  pub IsMap-insert_candidates :
      (maps : List (List (ℕ × F))) (n : ℕ) (cands : List ℕ) (t : Tally fl)
      → IsMap t.score
      → IsMap (insert_candidates fl maps n cands t).score
  unfolding insert_candidates insert
  IsMap-insert_candidates maps n [] t h = h
  IsMap-insert_candidates maps n (k ∷ cands) t h =
      IsMap-insert_candidates maps n cands _ (IsMap-update k (λ o. score_in fl k maps) t.score h)

  pub IsMap-remove_all :
      (ds : List ℕ) (t : Tally fl) → IsMap t.score → IsMap (remove_all fl ds t).score
  unfolding remove_all
  IsMap-remove_all [] t h = h
  IsMap-remove_all (k ∷ ds) t h = IsMap-remove_all ds _ (IsMap-remove k t.score h)
