-- ===== src/Header/Framing.antt =====
-- Load on a stream: what follows a complete header does not change what Load makes of it.
use apt_cacher_ng.Base.{
  ℕ, zero, suc, ◌+◌, ◌≡◌, ◌≤◌, ◌<◌, refl, sym, ap, ◌∙◌, true, false, Option, none, some, List, [],
  ◌∷◌, ◌++◌, arith, Bytes, codes, ltb, length, drop, pos, Bool-cases, Option-cases, inl, inr,
  length-append, length-drop, subst, minus_one, get_elem?,
}
use apt_cacher_ng.Text.{crlf, find, Walk, walk_over, next_by_str}
use apt_cacher_ng.Text.Pieces.{next_first}
use apt_cacher_ng.Header.{Header, HeadType, Loading, Outcome, returns, Turn, on, out}
use apt_cacher_ng.Header.Lines.{
  ended, line_turn, load_lines, load, first_line, continuation, named_line, field, is_known,
  start_type, load_typed, loaded, at_start, typed,
}
use apt_cacher_ng.Header.Ends.{
  starts_with_append_right, drop-append_le, at, behind, next-at, behind-append, turn-append,
  after_turn, from_piece, Found, find-append,
}

no_next : (rest : Bytes) → find crlf rest ≡ none → next_by_str crlf (at rest) ≡ none
unfolding next_by_str
no_next rest e = ground arith

-- A turn ends with a length only at an empty line that is not the last.
turn-length :
    (total n : ℕ) (w : Walk) (l l₂ : Loading)
    → line_turn total w l ≡ out (returns (pos (suc n))) l₂
    → ended total (next_by_str crlf w) ≡ returns (pos (suc n))
unfolding line_turn first_line continuation named_line field
turn-length total n w l l₂ e = ground arith

lines_end :
    (n total : ℕ) (w : Walk) (l : Loading)
    → next_by_str crlf w ≡ none
    → load_lines n total w l ≡ (returns (pos 0), l)
unfolding load_lines
lines_end zero total w l e = refl
lines_end (suc n) total w l e = rw (load_lines, e) refl

-- The last piece does not complete a header.
last-not_Found :
    (n total : ℕ) (rest : Bytes) (l : Loading)
    → find crlf rest ≡ none
    → ¬ Found (from_piece n total rest l).0
last-not_Found n total rest l e (k, found) = go (line_turn total (at rest) l) refl found
  where
    go :
        (t : Turn)
        → line_turn total (at rest) l ≡ t
        → (after_turn n total (at rest) t).0 ≡ returns (pos (suc k))
        → ⊥
    go (out o l₂) h g =
        let stop = turn-length total k (at rest) l l₂ (h ∙ ap (λ o. out o l₂) g) in
        let none_left = ap (ended total) (no_next rest e) in ground arith
    go (on l₂) h g =
        let over = ap (λ s. s.0) (lines_end n total (at rest) l₂ (no_next rest e)) in ground arith

lines_on :
    (n total : ℕ) (w : Walk) (r : Bytes) (l : Loading)
    → next_by_str crlf w ≡ some (at r)
    → load_lines (suc n) total w l ≡ from_piece n total r l
unfolding load_lines
lines_on n total w r l e = rw (load_lines, e) (go (line_turn total (at r) l))
  where
    go :
        (t : Turn)
        → elim t [ out o l' ↦ (o, l') | on l' ↦ load_lines n total (at r) l' ]
          ≡ after_turn n total (at r) t
    go (out o l₂) = refl
    go (on l₂) = refl

no_pieces : (total : ℕ) (w : Walk) (l : Loading) → ¬ Found (load_lines zero total w l).0
unfolding load_lines
no_pieces total w l (k, h) = ground arith

turns-append :
    (n n₂ total : ℕ) (rest m : Bytes) (t : Turn)
    → ((l : Loading)
        → Found (load_lines n total (at rest) l).0
        → load_lines n₂ (total + length m) (at (rest ++ m)) l ≡ load_lines n total (at rest) l)
    → Found (after_turn n total (at rest) t).0
    → after_turn n₂ (total + length m) (at (rest ++ m)) t ≡ after_turn n total (at rest) t
turns-append n n₂ total rest m (out o l) onward f = refl
turns-append n n₂ total rest m (on l) onward f = onward l f

piece-append :
    (n n₂ total : ℕ) (rest m : Bytes) (l : Loading)
    → n ≤ n₂
    → Found (from_piece n total rest l).0
    → from_piece n₂ (total + length m) (rest ++ m) l ≡ from_piece n total rest l
piece-append zero n₂ total rest m l le found = elim (Option-cases (find crlf rest)) [
  | inl e ↦ absurd (last-not_Found 0 total rest l e found)
  | inr (k, e) ↦ rw (turn-append total rest m l k e) (
      turns-append 0 n₂ total rest m (line_turn total (at rest) l)
        (λ l₂ f. absurd (no_pieces total (at rest) l₂ f)) found)
]
piece-append (suc n) zero total rest m l le found = absurd (omega arith)
piece-append (suc n) (suc n₂) total rest m l le found = elim (Option-cases (find crlf rest)) [
  | inl e ↦ absurd (last-not_Found (suc n) total rest l e found)
  | inr (k, e) ↦ rw (turn-append total rest m l k e) (
      turns-append (suc n) (suc n₂) total rest m (line_turn total (at rest) l)
        (λ l₂ f.
          let one = lines_on n total (at rest) (behind k rest) l₂ (next-at rest k e) in
          let two =
            lines_on n₂ (total + length m) (at (rest ++ m)) (behind k (rest ++ m)) l₂
              (next-at (rest ++ m) k (find-append crlf rest m k e)) in
          two
          ∙ ap (λ r. from_piece n₂ (total + length m) r l₂) (behind-append rest m k e)
          ∙ piece-append n n₂ total (behind k rest) m l₂ (omega arith)
              (subst (λ s. Found s.0) one f)
          ∙ sym one)
        found)
]

first_next : (s : Bytes) → 0 < length s → next_by_str crlf (walk_over s) ≡ some (at s)
first_next [] h = absurd (omega arith)
first_next (c ∷ s) h = next_first crlf (omega arith) c s

lines-append :
    (n n₂ total : ℕ) (s m : Bytes) (l : Loading)
    → n ≤ n₂
    → 0 < length s
    → Found (load_lines (suc n) total (walk_over s) l).0
    → load_lines (suc n₂) (total + length m) (walk_over (s ++ m)) l
      ≡ load_lines (suc n) total (walk_over s) l
lines-append n n₂ total s m l le some_text found =
    let one = lines_on n total (walk_over s) s l (first_next s some_text) in
    let two =
      lines_on n₂ (total + length m) (walk_over (s ++ m)) (s ++ m) l
        (first_next (s ++ m) (omega (arith, length-append s m))) in
    two ∙ piece-append n n₂ total s m l le (subst (λ p. Found p.0) one found) ∙ sym one

typed_known :
    (type : HeadType) (skip : ℕ) (input : Bytes) (unk : Option (List (Bytes × Bytes))) (hd : Header)
    → is_known type ≡ true
    → load_typed type skip input unk hd
      ≡ loaded (
          load_lines
            (suc (length input))
            (length input)
            (walk_over (drop skip input))
            (at_start unk hd))
unfolding load_typed
typed_known type skip input unk hd known = rw (load_typed, known) refl

typed_unknown :
    (type : HeadType) (skip : ℕ) (input : Bytes) (unk : Option (List (Bytes × Bytes))) (hd : Header)
    → is_known type ≡ false
    → load_typed type skip input unk hd ≡ (returns minus_one, hd, unk)
unfolding load_typed
typed_unknown type skip input unk hd unknown = rw (load_typed, unknown) refl

loaded-Found : (s : Outcome × Loading) → Found (loaded s).0 → Found s.0
loaded-Found (o, l) f = f

typed-append :
    (type : HeadType) (skip : ℕ) (input m : Bytes) (unk : Option (List (Bytes × Bytes)))
    (hd : Header)
    → skip < length input
    → Found (load_typed type skip input unk hd).0
    → load_typed type skip (input ++ m) unk hd ≡ load_typed type skip input unk hd
typed-append type skip input m unk hd lt found = elim (Bool-cases (is_known type)) [
  | inl known ↦
      let one = typed_known type skip input unk hd known in
      let lines =
        loaded-Found
          (load_lines (suc (length input)) (length input) (walk_over (drop skip input))
            (at_start unk hd))
          (subst (λ s. Found s.0) one found) in
      let same =
        lines-append (length input) (length (input ++ m)) (length input) (drop skip input) m
          (at_start unk hd) (omega (arith, length-append input m))
          (omega (arith, length-drop skip input)) lines in
      let lines_same : load_lines (suc (length (input ++ m))) (length (input ++ m))
            (walk_over (drop skip (input ++ m))) (at_start unk hd)
          ≡ load_lines (suc (length input)) (length input) (walk_over (drop skip input))
              (at_start unk hd) =
        subst
          (λ (t : ℕ × Bytes).
            load_lines (suc (length (input ++ m))) t.0 (walk_over t.1) (at_start unk hd)
            ≡ load_lines (suc (length input)) (length input) (walk_over (drop skip input))
                (at_start unk hd))
          {x = (length input + length m, drop skip input ++ m)}
          {y = (length (input ++ m), drop skip (input ++ m))}
          (ground (arith, length-append input m, drop-append_le skip input m)) same in
      typed_known type skip (input ++ m) unk hd known ∙ ap loaded lines_same ∙ sym one
  | inr unknown ↦
      typed_unknown type skip (input ++ m) unk hd unknown
      ∙ sym (typed_unknown type skip input unk hd unknown)
]

start_type-append :
    (input m : Bytes) → 9 ≤ length input → start_type (input ++ m) ≡ start_type input
unfolding start_type
start_type-append input m h = ground (
  arith,
  starts_with_append_right input m (codes "HTTP/1."),
  starts_with_append_right input m (codes "GET "),
  starts_with_append_right input m (codes "HEAD "),
  starts_with_append_right input m (codes "POST "),
  starts_with_append_right input m (codes "CONNECT "),
)

start_type-skip : (input : Bytes) → (start_type input).1 ≤ 8
unfolding start_type
start_type-skip input = ground arith

get_elem?-append :
    (input m : Bytes) (i : ℕ) → i < length input → get_elem? (input ++ m) i ≡ get_elem? input i
get_elem?-append [] m i h = absurd (omega arith)
get_elem?-append (c ∷ s) m zero h = refl
get_elem?-append (c ∷ s) m (suc i) h = get_elem?-append s m i (omega arith)

typed_append :
    (type : HeadType) (input m : Bytes) (hd : Header)
    → 9 ≤ length input
    → typed type (input ++ m) hd ≡ typed type input hd
typed_append type input m hd h = ground (arith, get_elem?-append input m 7)

load_long :
    (input : Bytes) (unk : Option (List (Bytes × Bytes))) (hd : Header)
    → 9 ≤ length input
    → load input unk hd
      ≡ load_typed
          (start_type input).0
          (start_type input).1
          input
          unk
          (typed (start_type input).0 input hd)
unfolding load
load_long input unk hd h = ground arith

load_short :
    (input : Bytes) (unk : Option (List (Bytes × Bytes))) (hd : Header)
    → length input < 9
    → (load input unk hd).0 ≡ returns (pos 0)
unfolding load
load_short input unk hd h = ground arith

-- A complete header is read alike whatever follows it: where Load returns a length for a text, it
-- returns the same length, the same header and the same exported lines for the text with more
-- behind it.
pub load-append :
    (input m : Bytes) (unk : Option (List (Bytes × Bytes))) (hd : Header) (n : ℕ)
    → (load input unk hd).0 ≡ returns (pos (suc n))
    → load (input ++ m) unk hd ≡ load input unk hd
load-append input m unk hd n e = elim (Bool-cases (ltb (length input) 9)) [
  | inl short ↦ let zero = load_short input unk hd (ground arith) in ground arith
  | inr h ↦
      let long : 9 ≤ length input = ground arith in
      let one = load_long input unk hd long in
      let (type, skip) = start_type input in
      load_long (input ++ m) unk hd (omega (arith, length-append input m))
      ∙ rw (start_type-append input m long, typed_append (start_type input).0 input m hd long)
          (typed-append (start_type input).0 (start_type input).1 input m unk
            (typed (start_type input).0 input hd) (omega (arith, start_type-skip input))
            (n, ap (λ s. s.0) (sym one) ∙ e))
      ∙ sym one
]
