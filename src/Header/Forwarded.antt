-- ===== src/Header/Forwarded.antt =====
-- What ExtractCustomHeaders forwards of the fields that Load exports.
use apt_cacher_ng.Base.{
  ℕ, ◌-◌, ◌≡◌, refl, sym, ap, ◌∙◌, Bool, true, false, List, [], ◌∷◌, ◌++◌, arith, Bytes, codes,
  length, take, if◌then◌else◌, append-nil, append_assoc, take-append, length-append,
}
use apt_cacher_ng.Text.{crlf}
use apt_cacher_ng.Header.Custom.{is_taboo, extract}

-- The exported entries with every continuation, which has no name, joined to the field before it.
abbrev pub joined : Bytes → Bytes → List (Bytes × Bytes) → List (Bytes × Bytes)
joined key v [] = (key, v) ∷ []
joined key v (([], w) ∷ es) = joined key (v ++ 32 ∷ w) es
joined key v ((c ∷ k, w) ∷ es) = (key, v) ∷ joined (c ∷ k) w es

abbrev pub line : Bytes → Bytes → Bytes
line key v = key ++ (codes ": " ++ (v ++ crlf))

-- One line for each field whose name is not taboo.
abbrev pub allowed_lines : List Bytes → List (Bytes × Bytes) → Bytes
allowed_lines names [] = []
allowed_lines names ((key, v) ∷ es) =
    if is_taboo names key then allowed_lines names es else line key v ++ allowed_lines names es

-- A line without its end.
abbrev open_line : Bytes → Bytes → Bytes
open_line key v = key ++ (codes ": " ++ v)

line_ends : (key v : Bytes) → line key v ≡ open_line key v ++ crlf
line_ends key v = sym (append_assoc key (codes ": " ++ v) crlf)

cut-line :
    (ret key v : Bytes)
    → take (length (ret ++ line key v) - 2) (ret ++ line key v) ≡ ret ++ open_line key v
cut-line ret key v =
    let whole : ret ++ line key v ≡ (ret ++ open_line key v) ++ crlf =
      ap (λ (t : Bytes). ret ++ t) (line_ends key v)
      ∙ sym (append_assoc ret (open_line key v) crlf) in
    ap (λ (t : Bytes). take (length t - 2) t) whole
    ∙ take-append (length ((ret ++ open_line key v) ++ crlf) - 2) (ret ++ open_line key v) crlf
        (omega (arith, length-append (ret ++ open_line key v) crlf))

extended :
    (ret key v w : Bytes)
    → take (length (ret ++ line key v) - 2) (ret ++ line key v) ++ (32 ∷ w ++ crlf)
      ≡ ret ++ line key (v ++ 32 ∷ w)
extended ret key v w =
    ap (λ (t : Bytes). t ++ (32 ∷ w ++ crlf)) (cut-line ret key v) ∙ simp (append_assoc) refl

extract-from :
    (names : List Bytes) (es : List (Bytes × Bytes)) (bad : Bool) (key v ret : Bytes)
    → is_taboo names key ≡ bad
    → extract names es bad (if bad then ret else ret ++ line key v)
      ≡ ret ++ allowed_lines names (joined key v es)
unfolding extract
extract-from names [] true key v ret h = ground (arith, append-nil ret)
extract-from names [] false key v ret h = ground (arith, append-nil (line key v))
extract-from names (([], w) ∷ es) true key v ret h =
    extract-from names es true key (v ++ 32 ∷ w) ret h
extract-from names (([], w) ∷ es) false key v ret h =
    ap (extract names es false) (extended ret key v w)
    ∙ extract-from names es false key (v ++ 32 ∷ w) ret h
extract-from names ((c ∷ k, w) ∷ es) true key v ret h =
    rw h (extract-from names es (is_taboo names (c ∷ k)) (c ∷ k) w ret refl)
extract-from names ((c ∷ k, w) ∷ es) false key v ret h = rw h (
    extract-from names es (is_taboo names (c ∷ k)) (c ∷ k) w (ret ++ line key v) refl
    ∙ append_assoc ret (line key v) (allowed_lines names (joined (c ∷ k) w es)))

-- What ExtractCustomHeaders appends for exported entries that begin with a name: one line for each
-- field whose name is not taboo, its continuations joined to it by a blank, and nothing of a field
-- whose name is.
pub extract-allowed_lines :
    (names : List Bytes) (c : ℕ) (key v : Bytes) (es : List (Bytes × Bytes))
    → extract names ((c ∷ key, v) ∷ es) false [] ≡ allowed_lines names (joined (c ∷ key) v es)
unfolding extract
extract-allowed_lines names c key v es =
    extract-from names es (is_taboo names (c ∷ key)) (c ∷ key) v [] refl
