-- ===== src/Zsl/Terms/Entries.antt =====
-- One entry of `.tis`: what `dump_entry` wrote, `decode_entry` reads.
use php_sdsearch.Prelude.{ℕ, suc, ◌+◌, ◌-◌, ◌≤◌, ◌≡◌, refl, ap, ◌∙◌, arith, List, [], ◌∷◌, ◌++◌}
use php_sdsearch.Prelude.{
  length, length-append, take, append_assoc, Bool-cases, inl, inr, Option, none, some, ◌==◌,
}
use php_sdsearch.Prelude.{add64, sub64}
use php_sdsearch.Io.Reads.{Reads, Reads-bind, Reads-map}
use php_sdsearch.Serialize.{IsU64, write_vint, read_vint}
use php_sdsearch.Serialize.Encoding.{length-vint, write_vint-vint}
use php_sdsearch.Serialize.RoundTrip.{Reads-vint}
use php_sdsearch.Zsl.Bytes.{encode_utf8, write_modified_utf8, read_modified_utf8}
use php_sdsearch.Zsl.Bytes.Integers.{IsU32}
use php_sdsearch.Zsl.Bytes.Strings.{IsString, Reads-string, write_modified_utf8-append}
use php_sdsearch.Zsl.Postings.Encoding.{two_vints}
use php_sdsearch.Zsl.Terms.{Entry, name_of, decode_entry}
use php_sdsearch.Zsl.Writer.Terms.{
  PrevTerm, len_utf8, common_prefix, slice_from, shared_prefix, write_pointers, dump_entry,
}

len_utf8_some : (c : ℕ) → 1 ≤ len_utf8 c
unfolding encode_utf8
len_utf8_some c = ground arith

take_more : (k c : ℕ) (xs : List ℕ) → take (k + 1) (c ∷ xs) ≡ c ∷ take k xs
take_more k c xs = let next : k + 1 ≡ suc k = omega arith in ap (λ (n : ℕ). take n (c ∷ xs)) next

slice_more : (c n : ℕ) (xs : List ℕ) → slice_from (c ∷ xs) (len_utf8 c + n) ≡ slice_from xs n
unfolding slice_from
slice_more c n xs = ground (arith, len_utf8_some c)

slice_zero : (xs : List ℕ) → slice_from xs 0 ≡ xs
unfolding slice_from
slice_zero [] = refl
slice_zero (c ∷ xs) = refl

-- The shared characters and the suffix are the text again.
common_prefix_lem :
    (a b : List ℕ) → take (common_prefix a b).0 a ++ slice_from b (common_prefix a b).1 ≡ b
unfolding common_prefix
common_prefix_lem [] b = slice_zero b
common_prefix_lem (ca ∷ a) [] = slice_zero []
common_prefix_lem (ca ∷ a) (cb ∷ b) = elim (Bool-cases (ca == cb)) [
  | inl e ↦
      let same : ca ≡ cb = ground arith in
      rw (e, take_more (common_prefix a b).0 ca a, same, slice_more cb (common_prefix a b).1 b)
        (ap (λ t. cb ∷ t) (common_prefix_lem a b))
  | inr e ↦ rw e (slice_zero (cb ∷ b))
]

length-common_prefix : (a b : List ℕ) → (common_prefix a b).0 ≤ length b
unfolding common_prefix
length-common_prefix [] b = omega arith
length-common_prefix (ca ∷ a) [] = omega arith
length-common_prefix (ca ∷ a) (cb ∷ b) = ground (arith, length-common_prefix a b)

IsString-slice_from : (s : List ℕ) (n : ℕ) → IsString s → IsString (slice_from s n)
unfolding slice_from
IsString-slice_from [] n h = h
IsString-slice_from (c ∷ s) n h = elim (Bool-cases (n == 0)) [
  | inl e ↦ rw e h
  | inr e ↦ rw e (IsString-slice_from s (n - len_utf8 c) (h.0.1, omega (arith, h.1)))
]

abbrev pub entry_of : List (List ℕ) → ℕ → List ℕ → ℕ → ℕ → ℕ → Entry
entry_of field_names field_num text df fp pp = record {
  field = name_of field_names field_num;
  text = text;
  info = record { doc_freq = df; freq_pointer = fp; prox_pointer = pp };
}

-- What the reader knows of the entry before: its text and its pointers.
abbrev pub text_of : Option PrevTerm → List ℕ
text_of none = []
text_of (some p) = p.text

abbrev pub freq_of : Option PrevTerm → ℕ
freq_of none = 0
freq_of (some p) = p.freq_ptr

abbrev pub prox_of : Option PrevTerm → ℕ
prox_of none = 0
prox_of (some p) = p.prox_ptr

-- Behind an entry whose pointers are u64.
abbrev pub IsPrev : Option PrevTerm → Type 0
IsPrev prev = IsU64 (freq_of prev) × IsU64 (prox_of prev)

shared_prefix_lem :
    (prev : Option PrevTerm) (field_num : ℕ) (text : List ℕ)
    → take (shared_prefix prev field_num text).0 (text_of prev)
        ++ slice_from text (shared_prefix prev field_num text).1
      ≡ text
unfolding shared_prefix
shared_prefix_lem none field_num text = slice_zero text
shared_prefix_lem (some p) field_num text = elim (Bool-cases (p.field_num == field_num)) [
  | inl e ↦ rw e (common_prefix_lem p.text text)
  | inr e ↦ rw e (slice_zero text)
]

length-shared_prefix :
    (prev : Option PrevTerm) (field_num : ℕ) (text : List ℕ)
    → (shared_prefix prev field_num text).0 ≤ length text
unfolding shared_prefix
length-shared_prefix none field_num text = omega arith
length-shared_prefix (some p) field_num text = ground (arith, length-common_prefix p.text text)

six_lem :
    (buf : List ℕ) (a b c d : ℕ)
    → IsU64 a
    → IsU64 b
    → IsU64 c
    → IsU64 d
    → write_vint (write_vint (write_vint (write_vint buf a) b) c) d
      ≡ buf ++ (write_vint [] a ++ (write_vint [] b ++ (write_vint [] c ++ write_vint [] d)))
six_lem buf a b c d ha hb hc hd =
    two_vints (write_vint (write_vint buf a) b) c d hc hd
    ∙ ap (λ t. t ++ last) (two_vints buf a b ha hb)
    ∙ append_assoc buf (write_vint [] a ++ write_vint [] b) last
    ∙ ap (λ t. buf ++ t) (append_assoc (write_vint [] a) (write_vint [] b) last)
  where
    last : List ℕ
    last = write_vint [] c ++ write_vint [] d

-- The difference of a pointer to the one before, in both cases of `write_pointers`.
abbrev delta : Option PrevTerm → ℕ → ℕ → ℕ
delta none before ptr = ptr
delta (some p) before ptr = sub64 ptr before

write_pointers_lem :
    (out : List ℕ) (prev : Option PrevTerm) (fp pp : ℕ)
    → write_pointers out prev fp pp
      ≡ write_vint (write_vint out (delta prev (freq_of prev) fp)) (delta prev (prox_of prev) pp)
unfolding write_pointers
write_pointers_lem out none fp pp = refl
write_pointers_lem out (some p) fp pp = refl

module _ (prev : Option PrevTerm) (field_num : ℕ) (text : List ℕ) (df fp pp : ℕ) where
  shared : ℕ
  shared = (shared_prefix prev field_num text).0

  suffix : List ℕ
  suffix = slice_from text (shared_prefix prev field_num text).1

  df_on : List ℕ
  df_on =
      write_vint [] field_num
      ++ (write_vint [] df
          ++ (write_vint [] (delta prev (freq_of prev) fp)
              ++ write_vint [] (delta prev (prox_of prev) pp)))

  module _ (p : IsPrev prev) (hn : IsU64 field_num) (ht : IsString text) (hd : IsU32 df)
      (hf : IsU64 fp) (hp : IsU64 pp) where
    delta_fits : (before ptr : ℕ) → IsU64 ptr → IsU64 (delta prev before ptr)
    delta_fits before ptr h = go prev
      where
        go : (o : Option PrevTerm) → IsU64 (delta o before ptr)
        go none = h
        go (some q) = omega arith

    shared_fits : IsU64 shared
    unfolding shared
    shared_fits = omega (arith, length-shared_prefix prev field_num text, ht.1)

    suffix-IsString : IsString suffix
    unfolding suffix
    suffix-IsString = IsString-slice_from text (shared_prefix prev field_num text).1 ht

    dump_entry_lem :
        dump_entry [] prev field_num text df fp pp
        ≡ write_vint [] shared ++ (write_modified_utf8 [] suffix ++ df_on)
    unfolding dump_entry shared suffix df_on
    dump_entry_lem =
        write_pointers_lem _ prev fp pp
        ∙ six_lem (write_modified_utf8 (write_vint [] shared) suffix) field_num df
            (delta prev (freq_of prev) fp) (delta prev (prox_of prev) pp) hn (omega arith)
            (delta_fits (freq_of prev) fp hf) (delta_fits (prox_of prev) pp hp)
        ∙ ap (λ t. t ++ df_on)
            (write_modified_utf8-append (write_vint [] shared) suffix suffix-IsString.1)
        ∙ append_assoc (write_vint [] shared) (write_modified_utf8 [] suffix) df_on

    pub dump_entry_some : 1 ≤ length (dump_entry [] prev field_num text df fp pp)
    dump_entry_some =
        rw (dump_entry_lem, length-append (write_vint [] shared) _)
          (omega (arith, length-vint 9 shared, ap length (write_vint-vint [] shared shared_fits)))

    deltas_back :
        (add64 (freq_of prev) (delta prev (freq_of prev) fp) ≡ fp)
        × (add64 (prox_of prev) (delta prev (prox_of prev) pp) ≡ pp)
    deltas_back = go prev p
      where
        go :
            (o : Option PrevTerm)
            → IsPrev o
            → (add64 (freq_of o) (delta o (freq_of o) fp) ≡ fp)
              × (add64 (prox_of o) (delta o (prox_of o) pp) ≡ pp)
        go none h = omega arith
        go (some q) h = omega arith

    text_back : take shared (text_of prev) ++ suffix ≡ text
    unfolding shared suffix
    text_back = shared_prefix_lem prev field_num text

    entry_eq :
        (field_names : List (List ℕ)) {text' : List ℕ} {df' fp' pp' : ℕ}
        → text' ≡ text
        → df' ≡ df
        → fp' ≡ fp
        → pp' ≡ pp
        → record {
          field = name_of field_names field_num;
          text = text';
          info = record { doc_freq = df'; freq_pointer = fp'; prox_pointer = pp' };
        }
          ≡ entry_of field_names field_num text df fp pp
    entry_eq field_names e1 e2 e3 e4 = cc

    -- `decode_entry` behind the same entry.
    pub Reads-entry :
        (field_names : List (List ℕ))
        → Reads
            (decode_entry (text_of prev) (freq_of prev) (prox_of prev) field_names)
            (dump_entry [] prev field_num text df fp pp)
            (entry_of field_names field_num text df fp pp)
    unfolding decode_entry df_on
    Reads-entry field_names = rw dump_entry_lem (
        Reads-bind read_vint _ (write_vint [] shared) _ shared
          (entry_of field_names field_num text df fp pp) (Reads-vint shared shared_fits)
          (Reads-bind read_modified_utf8 _ (write_modified_utf8 [] suffix) df_on suffix
            (entry_of field_names field_num text df fp pp) (Reads-string suffix suffix-IsString)
            (Reads-bind read_vint _ (write_vint [] field_num) _ field_num
              (entry_of field_names field_num text df fp pp) (Reads-vint field_num hn)
              (Reads-bind read_vint _ (write_vint [] df) _ df
                (entry_of field_names field_num text df fp pp) (Reads-vint df (omega arith))
                (Reads-bind read_vint _ (write_vint [] (delta prev (freq_of prev) fp)) _
                  (delta prev (freq_of prev) fp) (entry_of field_names field_num text df fp pp)
                  (Reads-vint (delta prev (freq_of prev) fp) (delta_fits (freq_of prev) fp hf))
                  (Reads-map read_vint _ (write_vint [] (delta prev (prox_of prev) pp))
                    (delta prev (prox_of prev) pp) (entry_of field_names field_num text df fp pp)
                    (Reads-vint (delta prev (prox_of prev) pp) (delta_fits (prox_of prev) pp hp))
                    (entry_eq field_names text_back (omega arith) deltas_back.0 deltas_back.1)))))))
