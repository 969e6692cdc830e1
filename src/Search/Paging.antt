-- ===== src/Search/Paging.antt =====
-- sdsearch-core/src/search.rs: `finalize_paged`, which ranks the scores and returns a page.
pub mod Sorting
pub mod Selection
pub mod Pages
use php_sdsearch.Prelude.{
  ℕ, ◌+◌, ◌-◌, ◌^◌, min, List, [], ◌∷◌, map, length, take, drop, Option, none, some, Bool, true,
  false,
}
use php_sdsearch.Prelude.{ltb, if◌then◌else◌}
use php_sdsearch.Floats.{Floats, Float}
use php_sdsearch.Index.{IndexReader}
use php_sdsearch.Maps.{keep}
use php_sdsearch.Strings.{then_with, sort_by}
use php_sdsearch.Search.Terms.{or_equal}
use mathlib.Core.Ordering.{Ordering, lt, eq, gt}

pub record Hit (F : Type 0) : Type 0 where
  pub id : ℕ
  pub score : F
  pub fields : List (List ℕ × List ℕ)

pub record SearchOutcome (F : Type 0) : Type 0 where
  pub hits : List (Hit F)
  pub total : ℕ
  pub total_capped : Bool

-- `saturating_add` of usize
abbrev pub saturating_add : ℕ → ℕ → ℕ
saturating_add a b = min (a + b) (2 ^ 64 - 1)

-- `Ord::cmp` of usize
abbrev pub id_cmp : ℕ → ℕ → Ordering
id_cmp a b = if ltb a b then lt else if ltb b a then gt else eq

-- `select_nth_unstable_by(need, cmp)` of the standard library, the parameter `select`, and
-- `truncate(need)`
unfoldable pub least {ℓ} :
    {A : Type ℓ}
    → ((A → A → Ordering) → ℕ → List A → List A)
    → (A → A → Ordering)
    → ℕ
    → List A
    → List A
least select cmp need ranked =
    if ltb need (length ranked) then take need (select cmp need ranked) else ranked

abbrev pub capped_total : Option ℕ → ℕ → ℕ
capped_total none count = count
capped_total (some cap) count = min count cap

abbrev pub is_capped : Option ℕ → ℕ → Bool
is_capped none count = false
is_capped (some cap) count = ltb cap count

module _ (fl : Floats) where
  open fl use {F32, single}
  open single use {ge, partial_cmp}

  -- Score descending, id ascending.
  abbrev pub by_score : ℕ × F32 → ℕ × F32 → Ordering
  by_score a b = then_with (or_equal fl (partial_cmp b.1 a.1)) (id_cmp a.0 b.0)

  module _ (index : IndexReader F32) where
    abbrev pub hydrate : ℕ × F32 → Hit F32
    hydrate (id, score) = record { id = id; score = score; fields = index.stored_fields id }

    module _ (select : (ℕ × F32 → ℕ × F32 → Ordering) → ℕ → List (ℕ × F32) → List (ℕ × F32)) where
      unfoldable pub finalize_paged : List (ℕ × F32) → F32 → ℕ → ℕ → Option ℕ → SearchOutcome F32
      unfolding least
      finalize_paged scored min_score offset limit total_cap =
          let ranked = keep (λ p. ge p.1 min_score) scored in
          let count = length ranked in
          let need = saturating_add offset limit in
          record {
            hits =
                map hydrate
                  (take limit (drop offset (sort_by by_score (least select by_score need ranked))));
            total = capped_total total_cap count;
            total_capped = is_capped total_cap count;
          }

      unfoldable pub finalize : List (ℕ × F32) → F32 → ℕ → List (Hit F32)
      unfolding finalize_paged
      finalize scored min_score limit = (finalize_paged scored min_score 0 limit none).hits
