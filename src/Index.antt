-- ===== src/Index.antt =====
-- sdsearch-core/src/index.rs: the trait `IndexReader`, what the search asks of an index. Names of
-- fields and terms are strings. The methods that no query asks for are left out.
use php_sdsearch.Prelude.{ℕ, List, Option, Bool}

pub record IndexReader (F : Type 0) : Type 0 where
  pub num_docs : ℕ
  pub total_docs : ℕ
  pub is_deleted : ℕ → Bool
  pub doc_freq : List ℕ → List ℕ → ℕ
  pub postings_for : List ℕ → List ℕ → List (ℕ × ℕ)
  pub field_len : ℕ → List ℕ → ℕ
  pub avg_field_len : List ℕ → F
  pub stored_fields : ℕ → List (List ℕ × List ℕ)
  pub terms_with_prefix : List ℕ → List ℕ → List (List ℕ)
  pub terms_with_prefix_limited : List ℕ → List ℕ → ℕ → List (List ℕ)
  pub terms_in_range : List ℕ → Option (List ℕ) → Option (List ℕ) → List (List ℕ)
  pub indexed_fields : List (List ℕ)
  pub positions_all : List ℕ → List ℕ → List (ℕ × List ℕ)
