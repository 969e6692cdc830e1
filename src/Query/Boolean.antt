-- ===== src/Query/Boolean.antt =====
-- sdsearch-core/src/query.rs, `eval_boolean`: the clauses are given by what evaluates them.
pub mod Loops
pub mod Found
pub mod Meaning
pub mod Refines
pub mod Value
use php_sdsearch.Prelude.{
  ℕ, ◌+◌, List, [], ◌∷◌, map, length, leb, Option, none, some, Bool, true, false,
}
use php_sdsearch.Prelude.{if◌then◌else◌}
use php_sdsearch.Floats.{Float}
use php_sdsearch.Maps.{
  keep, contains, is_empty, get, update, insert, remove, keys, map_values, unwrap_or, is_some,
}
use Prim.Native.Nat.{max}

pub data Occur : Type 0 where
  should must must_not : Occur

-- `eval` of a clause, as a function of `restrict`.
abbrev pub Eval : Type 0 → Type 0
Eval F = Option (List ℕ) → List (ℕ × F)

-- The set that is left is the same whichever operand is kept.
unfoldable pub intersect_in_place : List ℕ → List ℕ → List ℕ
intersect_in_place a b =
    if leb (length a) (length b) then keep (contains b) a else keep (contains a) b

abbrev pub same_occur : Occur → Occur → Bool
same_occur should should = true
same_occur must must = true
same_occur must_not must_not = true
same_occur _ _ = false

-- `must_qs`, `should_qs`, `mustnot_qs`
unfoldable pub clauses_of {ℓ} : {A : Type ℓ} → Occur → List (Occur × A) → List A
clauses_of o [] = []
clauses_of o ((o', q) ∷ clauses) =
    let rest = clauses_of o clauses in if same_occur o' o then q ∷ rest else rest

unfoldable pub meet : Option (List ℕ) → List ℕ → List ℕ
unfolding intersect_in_place
meet none set = set
meet (some prev) set = intersect_in_place prev set

module _ {F : Type 0} (fl : Float F) where
  open fl use {decimal, of_nat, add, mul, div, sum}

  -- `score` and `matched`
  pub record Tally : Type 0 where
    pub score : List (ℕ × F)
    pub matched : List (ℕ × ℕ)

  abbrev add_score : ℕ → F → List (ℕ × F) → List (ℕ × F)
  add_score d s score = update d (λ o. add (unwrap_or o (decimal 0 0)) s) score

  abbrev count_match : ℕ → List (ℕ × ℕ) → List (ℕ × ℕ)
  count_match d matched = update d (λ o. unwrap_or o 0 + 1) matched

  -- The union of the shoulds, where there is no must.
  unfoldable pub add_entries : List (ℕ × F) → Tally → Tally
  add_entries [] t = t
  add_entries ((d, s) ∷ entries) t =
      add_entries entries
        (record { score = add_score d s t.score; matched = count_match d t.matched })

  unfoldable pub union_shoulds : List (Eval F) → Option (List ℕ) → Tally → Tally
  unfolding add_entries
  union_shoulds [] restrict t = t
  union_shoulds (q ∷ shoulds) restrict t =
      union_shoulds shoulds restrict (add_entries (q restrict) t)

  -- The musts from the second on, each restricted to the candidates that are left.
  unfoldable pub narrow : List (Eval F) → Option (List ℕ) → List (List (ℕ × F)) × Option (List ℕ)
  narrow [] cand = ([], cand)
  narrow (q ∷ musts) cand =
      let m = q cand in
      let (maps, last) = narrow musts (some (meet cand (keys m))) in (m ∷ maps, last)

  -- The score of a candidate, in declared order.
  abbrev score_in : ℕ → List (List (ℕ × F)) → F
  score_in d maps = sum (map (λ m. unwrap_or (get d m) (decimal 0 0)) maps)

  unfoldable pub insert_candidates : List (List (ℕ × F)) → ℕ → List ℕ → Tally → Tally
  insert_candidates maps n [] t = t
  insert_candidates maps n (d ∷ cands) t =
      insert_candidates maps n cands
        (record { score = insert d (score_in d maps) t.score; matched = insert d n t.matched })

  -- A should adds to the documents that are there.
  unfoldable pub raise_entries : List (ℕ × F) → Tally → Tally
  raise_entries [] t = t
  raise_entries ((d, s) ∷ entries) t = raise_entries entries (
      if is_some (get d t.score)
      then record { score = add_score d s t.score; matched = count_match d t.matched }
      else t)

  unfoldable pub raise_shoulds : List (Eval F) → List ℕ → Tally → Tally
  unfolding raise_entries
  raise_shoulds [] cand t = t
  raise_shoulds (q ∷ shoulds) cand t = raise_shoulds shoulds cand (raise_entries (q (some cand)) t)

  -- The musts: the first is evaluated last, and summed first.
  unfoldable pub eval_musts : Eval F → List (Eval F) → List (Eval F) → Option (List ℕ) → Tally
  unfolding narrow insert_candidates raise_shoulds
  eval_musts first musts shoulds restrict =
      let (maps, cand) = narrow musts restrict in
      let m = first cand in
      let final_cand = meet cand (keys m) in
      raise_shoulds shoulds final_cand (
        insert_candidates (m ∷ maps) (length (m ∷ maps)) final_cand
          (record { score = []; matched = [] }))

  unfoldable pub tally : List (Eval F) → List (Eval F) → Option (List ℕ) → Tally
  unfolding union_shoulds eval_musts
  tally [] shoulds restrict = union_shoulds shoulds restrict (record { score = []; matched = [] })
  tally (first ∷ musts) shoulds restrict = eval_musts first musts shoulds restrict

  unfoldable pub remove_all : List ℕ → Tally → Tally
  remove_all [] t = t
  remove_all (d ∷ ds) t =
      remove_all ds (record { score = remove d t.score; matched = remove d t.matched })

  unfoldable pub exclude : List (Eval F) → List ℕ → Tally → Tally
  unfolding remove_all
  exclude [] removal_restrict t = t
  exclude (q ∷ mustnots) removal_restrict t =
      exclude mustnots removal_restrict (remove_all (keys (q (some removal_restrict))) t)

  unfoldable pub exclude_mustnots : List (Eval F) → Tally → Tally
  unfolding exclude
  exclude_mustnots mustnots t = if is_empty t.score then t else exclude mustnots (keys t.score) t

  -- The last step: each score times the share of the clauses that matched.
  abbrev coord : ℕ → Tally → List (ℕ × F)
  coord clauses t =
      map_values
        (λ d s. mul s (div (of_nat (unwrap_or (get d t.matched) 0)) (of_nat (max clauses 1))))
        t.score

  unfoldable pub eval_boolean : List (Occur × Eval F) → Eval F
  unfolding tally exclude_mustnots
  eval_boolean clauses restrict =
      let musts = clauses_of must clauses in
      let shoulds = clauses_of should clauses in
      coord (length musts + length shoulds)
        (exclude_mustnots (clauses_of must_not clauses) (tally musts shoulds restrict))
