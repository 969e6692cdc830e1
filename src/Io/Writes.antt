-- ===== src/Io/Writes.antt =====
-- Writers that append to a buffer, and a loop of them.
use php_sdsearch.Prelude.{ℕ, ◌≡◌, sym, ap, ◌∙◌, List, [], ◌∷◌, ◌++◌, append-nil, append_assoc, All}
use php_sdsearch.Io.Reads.{concat_map}

-- `for x in xs { write(&mut buf, x) }`
abbrev pub write_each {ℓ} : {A : Type ℓ} → (List ℕ → A → List ℕ) → List ℕ → List A → List ℕ
write_each write buf [] = buf
write_each write buf (x ∷ xs) = write_each write (write buf x) xs

abbrev pub Appends {ℓ} : {A : Type ℓ} → (List ℕ → A → List ℕ) → A → Type 0
Appends write x = (buf : List ℕ) → write buf x ≡ buf ++ write [] x

pub write_each-append {ℓ} :
    {A : Type ℓ} (write : List ℕ → A → List ℕ) (buf : List ℕ) (xs : List A)
    → All (Appends write) xs
    → write_each write buf xs ≡ buf ++ concat_map (write []) xs
write_each-append write buf [] h = sym (append-nil buf)
write_each-append write buf (x ∷ xs) h =
    ap (λ b. write_each write b xs) (h.0 buf)
    ∙ write_each-append write (buf ++ write [] x) xs h.1
    ∙ append_assoc buf (write [] x) (concat_map (write []) xs)
