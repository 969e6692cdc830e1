-- ===== src/Score.antt =====
-- sdsearch-core/src/score.rs: the similarities.
use php_sdsearch.Prelude.{ℕ, ◌==◌, if◌then◌else◌}
use php_sdsearch.Floats.{Float}
use Prim.Native.Nat.{max}

pub data Similarity : Type 0 where
  bm25 tf_idf : Similarity

module _ {F : Type 0} (fl : Float F) where
  open fl use {decimal, of_nat, add, sub, mul, div, ln, sqrt, gt}

  abbrev one : F
  one = decimal 1 0

  unfoldable pub idf : F → F → F
  idf total_docs doc_freq = add one (ln (div total_docs (add doc_freq one)))

  -- `Similarity::idf`
  unfoldable pub similarity_idf : Similarity → F → F → F
  unfolding idf
  similarity_idf tf_idf total_docs doc_freq = idf total_docs doc_freq
  similarity_idf bm25 total_docs doc_freq =
      fl.max
        (ln (
          add one (div (add (sub total_docs doc_freq) (decimal 5 1)) (add doc_freq (decimal 5 1)))))
        (decimal 0 0)

  unfoldable pub tf_idf_score : F → ℕ → ℕ → F
  tf_idf_score idf term_freq field_len =
      let tf = sqrt (of_nat term_freq) in
      let field_norm = div one (sqrt (of_nat (max field_len 1))) in
      mul (mul (mul tf idf) idf) field_norm

  unfoldable pub bm25_score : F → ℕ → ℕ → F → F
  bm25_score idf term_freq field_len avg_field_len =
      let k1 = decimal 12 1 in
      let b = decimal 75 2 in
      let tf = of_nat term_freq in
      let avg = if gt avg_field_len (decimal 0 0) then avg_field_len else one in
      let len_ratio = div (of_nat (max field_len 1)) avg in
      let denom = add tf (mul k1 (add (sub one b) (mul b len_ratio))) in
      mul idf (div (mul tf (add k1 one)) denom)

  -- `Similarity::score`
  unfoldable pub score : Similarity → F → ℕ → ℕ → F → F
  unfolding tf_idf_score bm25_score
  score sim idf term_freq field_len avg_field_len =
      if term_freq == 0 then decimal 0 0 else elim sim [
        | tf_idf ↦ tf_idf_score idf term_freq field_len
        | bm25 ↦ bm25_score idf term_freq field_len avg_field_len
      ]
