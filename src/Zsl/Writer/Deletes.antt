-- ===== src/Zsl/Writer/Deletes.antt =====
-- sdsearch-core/src/zsl/writer/deletes.rs: the writer of the deleted documents (.del). The set of
-- local ids is the list of its elements.
use php_sdsearch.Prelude.{ℕ, zero, suc, ◌+◌, ◌/◌, ◌%◌, ◌^◌, List, [], ◌∷◌, ◌++◌, replicate}
use php_sdsearch.Prelude.{bit_or, ltb, if◌then◌else◌, to_u32}
use php_sdsearch.Zsl.Bytes.{write_i32_be}

-- `bitmap[k] |= mask`; `k` is in range wherever it is called.
unfoldable pub or_at : List ℕ → ℕ → ℕ → List ℕ
or_at [] k mask = []
or_at (b ∷ bitmap) zero mask = bit_or b mask ∷ bitmap
or_at (b ∷ bitmap) (suc k) mask = b ∷ or_at bitmap k mask

-- The loop over the ids.
unfoldable pub mark_all : ℕ → List ℕ → List ℕ → List ℕ
mark_all doc_count bitmap [] = bitmap
mark_all doc_count bitmap (id ∷ deleted) =
    mark_all doc_count (if ltb id doc_count then or_at bitmap (id / 8) (2 ^ (id % 8)) else bitmap)
      deleted

-- `deleted.iter().filter(|&&id| id < doc_count).count()`
unfoldable pub count_below : ℕ → List ℕ → ℕ
count_below doc_count [] = 0
count_below doc_count (id ∷ deleted) =
    let rest = count_below doc_count deleted in if ltb id doc_count then suc rest else rest

unfoldable pub write_del_file : ℕ → List ℕ → List ℕ
write_del_file doc_count deleted =
    let bitmap = mark_all doc_count (replicate (doc_count / 8 + 1) 0) deleted in
    write_i32_be (write_i32_be [] (to_u32 doc_count)) (to_u32 (count_below doc_count deleted))
    ++ bitmap
