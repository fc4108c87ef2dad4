-- ===== src/Escape/Malformed.antt =====
-- What UrlUnescapeAppend of src/meta.cc makes of any text, malformed escapes included.
use apt_cacher_ng.Base.{
  ℕ, ◌+◌, ◌*◌, ◌≡◌, refl, sym, ap, ◌∙◌, Bool, true, false, Bool-cases, inl, inr, List, [], ◌∷◌,
  ◌++◌, append_assoc, append-nil, arith, Bytes, ◌==◌, ltb, not, ◌&&◌, if◌then◌else◌, subst, ==_iff,
  drop,
}
use apt_cacher_ng.Escape.{hexmap, url_unescape_append}

-- A byte that stands for itself, an escape, and a '%' that begins none.
pub data Piece : Type 0 where
  plain : ℕ → Piece
  escape : ℕ → ℕ → Piece
  stray : Piece

abbrev pub spelled : List Piece → Bytes
spelled [] = []
spelled (plain c ∷ ps) = c ∷ spelled ps
spelled (escape a b ∷ ps) = b'%' ∷ a ∷ b ∷ spelled ps
spelled (stray ∷ ps) = b'%' ∷ spelled ps

abbrev pub meant : List Piece → Bytes
meant [] = []
meant (plain c ∷ ps) = c ∷ meant ps
meant (escape a b ∷ ps) = (16 * hexmap a + hexmap b) ∷ meant ps
meant (stray ∷ ps) = meant ps

abbrev pub no_stray : List Piece → Bool
no_stray [] = true
no_stray (plain c ∷ ps) = no_stray ps
no_stray (escape a b ∷ ps) = no_stray ps
no_stray (stray ∷ ps) = false

-- Two hexadecimal digits are in front.
abbrev pub digits_first : Bytes → Bool
digits_first (a ∷ b ∷ s) = ltb (hexmap a) 16 && ltb (hexmap b) 16
digits_first s = false

-- Each '%' is read as an escape where two digits follow, and only there.
abbrev pub AreRead : List Piece → Type 0
AreRead [] = Unit
AreRead (plain c ∷ ps) = ((c == b'%') ≡ false) × AreRead ps
AreRead (escape a b ∷ ps) = (digits_first (a ∷ b ∷ []) ≡ true) × AreRead ps
AreRead (stray ∷ ps) = (digits_first (spelled ps) ≡ false) × AreRead ps

abbrev pub Unescaped : Bytes → Bytes → Bool × Bytes → Type 0
Unescaped s to o =
    (ps : List Piece) × (spelled ps ≡ s) × AreRead ps × (o ≡ (no_stray ps, to ++ meant ps))

plain-Unescaped :
    (c : ℕ) (s to : Bytes) (o : Bool × Bytes)
    → (c == b'%') ≡ false
    → Unescaped s (to ++ c ∷ []) o
    → Unescaped (c ∷ s) to o
plain-Unescaped c s to o h (ps, sp, r, e) = (
  plain c ∷ ps,
  ap (◌∷◌ c) sp,
  (h, r),
  e ∙ ap (λ (t : Bytes). (no_stray ps, t)) (append_assoc to (c ∷ []) (meant ps)),
)

stray-Unescaped :
    (c : ℕ) (s to : Bytes) (o : Bool × Bytes)
    → c ≡ b'%'
    → digits_first s ≡ false
    → Unescaped s to o
    → Unescaped (c ∷ s) to (false, o.1)
stray-Unescaped c s to o h none_follow (ps, sp, r, e) = (
  stray ∷ ps,
  ap (λ (t : Bytes). b'%' ∷ t) sp ∙ ap (λ (d : ℕ). d ∷ s) (sym h),
  (ap digits_first sp ∙ none_follow, r),
  ap (λ (p : Bool × Bytes). (false, p.1)) e,
)

escape-Unescaped :
    (c a b : ℕ) (s to : Bytes) (o : Bool × Bytes)
    → c ≡ b'%'
    → digits_first (a ∷ b ∷ []) ≡ true
    → Unescaped s (to ++ (16 * hexmap a + hexmap b) ∷ []) o
    → Unescaped (c ∷ a ∷ b ∷ s) to o
escape-Unescaped c a b s to o h digits (ps, sp, r, e) = (
  escape a b ∷ ps,
  ap (λ (t : Bytes). b'%' ∷ a ∷ b ∷ t) sp ∙ ap (λ (d : ℕ). d ∷ a ∷ b ∷ s) (sym h),
  (digits, r),
  e
      ∙ ap (λ (t : Bytes). (no_stray ps, t))
          (append_assoc to ((16 * hexmap a + hexmap b) ∷ []) (meant ps)),
)

next_plain :
    (c : ℕ) (s to : Bytes)
    → (c == b'%') ≡ false
    → url_unescape_append (c ∷ s) to ≡ url_unescape_append s (to ++ c ∷ [])
unfolding url_unescape_append
next_plain c [] to h = ap (λ (b : Bool). if not b then (true, to ++ c ∷ []) else (false, to)) h
next_plain c (a ∷ []) to h = ground arith
next_plain c (a ∷ b ∷ s) to h = ground arith

next_stray :
    (c : ℕ) (s to : Bytes)
    → (c == b'%') ≡ true
    → digits_first s ≡ false
    → url_unescape_append (c ∷ s) to ≡ (false, (url_unescape_append s to).1)
unfolding url_unescape_append
next_stray c [] to h short = ground arith
next_stray c (a ∷ []) to h short = ground arith
next_stray c (a ∷ b ∷ s) to h short = ground arith

next_escape :
    (c a b : ℕ) (s to : Bytes)
    → (c == b'%') ≡ true
    → digits_first (a ∷ b ∷ []) ≡ true
    → url_unescape_append (c ∷ a ∷ b ∷ s) to
      ≡ url_unescape_append s (to ++ (16 * hexmap a + hexmap b) ∷ [])
unfolding url_unescape_append
next_escape c a b s to h digits = ground arith

next_escape-Unescaped :
    (c : ℕ) (s to : Bytes)
    → (c == b'%') ≡ true
    → digits_first s ≡ true
    → ((t : Bytes) → Unescaped (drop 2 s) t (url_unescape_append (drop 2 s) t))
    → Unescaped (c ∷ s) to (url_unescape_append (c ∷ s) to)
next_escape-Unescaped c [] to sign digits rest = ground arith
next_escape-Unescaped c (a ∷ []) to sign digits rest = ground arith
next_escape-Unescaped c (a ∷ b ∷ s) to sign digits rest =
    subst (Unescaped (c ∷ a ∷ b ∷ s) to) (sym (next_escape c a b s to sign digits)) (
      escape-Unescaped c a b s to _ ((==_iff c b'%').0 sign) digits
        (rest (to ++ (16 * hexmap a + hexmap b) ∷ [])))

-- One byte more in front of a text that is read, as is the text behind its first two bytes.
byte-Unescaped :
    (c : ℕ) (s : Bytes)
    → ((t : Bytes) → Unescaped s t (url_unescape_append s t))
    → ((t : Bytes) → Unescaped (drop 2 s) t (url_unescape_append (drop 2 s) t))
    → (to : Bytes) → Unescaped (c ∷ s) to (url_unescape_append (c ∷ s) to)
byte-Unescaped c s rest behind to = elim (Bool-cases (c == b'%')) [
  | inr other ↦
      subst (Unescaped (c ∷ s) to) (sym (next_plain c s to other))
        (plain-Unescaped c s to _ other (rest (to ++ c ∷ [])))
  | inl sign ↦ elim (Bool-cases (digits_first s)) [
    | inl digits ↦ next_escape-Unescaped c s to sign digits behind
    | inr short ↦
        subst (Unescaped (c ∷ s) to) (sym (next_stray c s to sign short))
          (stray-Unescaped c s to _ ((==_iff c b'%').0 sign) short (rest to))
  ]
]

-- UrlUnescapeAppend reads any text as bytes that stand for themselves, escapes, and '%' signs that no
-- two hexadecimal digits follow: it appends the bytes and the values of the escapes, leaves such a
-- sign out, and reports a fault exactly if there is one.
pub url_unescape_append_pieces :
    (s to : Bytes)
    → (ps : List Piece) × (spelled ps ≡ s)
      × AreRead ps
      × (url_unescape_append s to ≡ (no_stray ps, to ++ meant ps))
unfolding url_unescape_append
url_unescape_append_pieces [] to =
    ([], refl, tt, ap (λ (t : Bytes). (true, t)) (sym (append-nil to)))
url_unescape_append_pieces (c ∷ []) to =
    byte-Unescaped c [] (url_unescape_append_pieces []) (url_unescape_append_pieces []) to
url_unescape_append_pieces (c ∷ a ∷ []) to =
    byte-Unescaped c (a ∷ []) (url_unescape_append_pieces (a ∷ [])) (url_unescape_append_pieces [])
      to
url_unescape_append_pieces (c ∷ a ∷ b ∷ s) to =
    byte-Unescaped c (a ∷ b ∷ s) (url_unescape_append_pieces (a ∷ b ∷ s))
      (url_unescape_append_pieces s) to
