-- ===== src/HeadFile/RoundTrip.antt =====
-- What is stored in a `.head` file is read back from it.
use apt_cacher_ng.Base.{
  ℕ, suc, ◌≡◌, ◌<◌, refl, ap, ◌∙◌, true, false, some, [], ◌∷◌, ◌++◌, arith, Bytes, All, codes,
  if◌then◌else◌, starts_with, length, drop, null, not, ℤ, pos, negsuc, le_ℤ,
}
use apt_cacher_ng.Text.{space_chars, crlf, find, walk_over, next_by_str}
use apt_cacher_ng.Text.Trimmed.{StartsClean, EndsClean, trim_both_clean}
use apt_cacher_ng.Text.Pieces.{next_first}
use apt_cacher_ng.Text.Decimal.{is_digit, print_ℤ, print_ℕ-All, atoll, atoll_blank, atoll-print_ℤ}
use apt_cacher_ng.Http.{Dates, http_date, date_size}
use apt_cacher_ng.HeadFile.{Slots, slots, take_line, head_lines, parse_head, head_text}
use apt_cacher_ng.HeadFile.OneLines.{
  OneLine, at, next_line, next_full_line, view_line, origin_OneLine, date_OneLine, length_OneLine,
  digits_OneLine,
}

-- A date and an origin that stand on a line each, with no blanks around them; either may be empty.
pub record Storable (date origin : Bytes) : Type 0 where
  pub date_line : OneLine date
  pub date_start : StartsClean space_chars date
  pub date_end : EndsClean space_chars date
  pub date_short : length date < date_size
  pub origin_line : OneLine origin
  pub origin_start : StartsClean space_chars origin
  pub origin_end : EndsClean space_chars origin

print_ℤ-All : (n : ℕ) → All (λ c. is_digit c ≡ true) (print_ℤ (pos n))
unfolding print_ℤ
print_ℤ-All n = print_ℕ-All n

counted : (l : ℕ) → le_ℤ (pos 0) (pos l) ≡ true
counted l = ground arith

not_counted : (l : ℕ) → le_ℤ (pos 0) (negsuc l) ≡ false
not_counted l = ground arith

module _ (lib : Dates) where
  step :
      (n : ℕ) (prev line rest : Bytes) (s : Slots)
      → OneLine line
      → null line ≡ false
      → head_lines (suc n) lib (at prev (line ++ (crlf ++ rest))) s
        ≡ head_lines n lib (at line rest) (take_line lib line (line ++ (crlf ++ rest)) s)
  unfolding head_lines
  step n prev line rest s h ne =
      rw (next_full_line prev line rest h, head_lines)
        (rw (view_line line rest, ne)
          (ap (λ l. head_lines n lib (at line rest) (take_line lib l (line ++ (crlf ++ rest)) s))
            (view_line line rest)))

  finish : (n : ℕ) (prev : Bytes) (s : Slots) → head_lines (suc n) lib (at prev crlf) s ≡ s
  unfolding head_lines find starts_with
  finish n prev s = rw (next_line prev crlf, head_lines)

  take_origin :
      (o input : Bytes) (s : Slots)
      → StartsClean space_chars o
      → EndsClean space_chars o
      → s.want_origin ≡ true
      → take_line lib (codes "X-Original-Source: " ++ o) input s
        ≡ record s { orig_src = o; want_origin = false }
  unfolding take_line starts_with
  take_origin o input s b e w = ground (arith, trim_both_clean space_chars o b e)

  take_date :
      (d input : Bytes) (s : Slots)
      → StartsClean space_chars d
      → EndsClean space_chars d
      → null d ≡ false
      → length d < date_size
      → s.want_date ≡ true
      → take_line lib (codes "Last-Modified: " ++ d) input s
        ≡ record s { last_modified = d; want_date = false }
  unfolding take_line starts_with http_date
  take_date d input s b e ne short w = ground (arith, trim_both_clean space_chars d b e)

  take_length :
      (l rest : Bytes) (s : Slots)
      → s.want_length ≡ true
      → take_line lib (codes "Content-Length: " ++ l) (codes "Content-Length: " ++ rest) s
        ≡ record s { content_length = atoll rest; want_length = false }
  unfolding take_line starts_with
  take_length l rest s w = ground (arith, atoll_blank rest)

  origin_tail : Bytes → Bytes
  origin_tail origin =
      if null origin then crlf else codes "X-Original-Source: " ++ (origin ++ (crlf ++ crlf))

  date_tail : Bytes → Bytes → Bytes
  unfolding origin_tail
  date_tail date origin =
      if null date
      then origin_tail origin
      else codes "Last-Modified: " ++ (date ++ (crlf ++ origin_tail origin))

  origin_stage :
      (n : ℕ) (prev origin : Bytes) (s : Slots)
      → OneLine origin
      → StartsClean space_chars origin
      → EndsClean space_chars origin
      → s.want_origin ≡ true
      → head_lines (suc (suc n)) lib (at prev (origin_tail origin)) s ≡ record s {
        orig_src = if null origin then s.orig_src else origin;
        want_origin = null origin;
      }
  unfolding origin_tail
  origin_stage n prev [] s h b e w = finish (suc n) prev s ∙ ground arith
  origin_stage n prev (c ∷ o) s h b e w =
      step (suc n) prev (codes "X-Original-Source: " ++ (c ∷ o)) crlf s (origin_OneLine (c ∷ o) h)
        refl
      ∙ ap (head_lines (suc n) lib (at (codes "X-Original-Source: " ++ (c ∷ o)) crlf))
          (take_origin (c ∷ o) (codes "X-Original-Source: " ++ ((c ∷ o) ++ (crlf ++ crlf))) s b e w)
      ∙ finish n (codes "X-Original-Source: " ++ (c ∷ o)) _

  -- What the lines of a date and of an origin leave in the slots.
  abbrev filled : Bytes → Bytes → Slots → Slots
  filled date origin s = record s {
    last_modified = if null date then s.last_modified else date;
    want_date = null date;
    orig_src = if null origin then s.orig_src else origin;
    want_origin = null origin;
  }

  date_stage :
      (n : ℕ) (prev date origin : Bytes) (s : Slots)
      → Storable date origin
      → s.want_date ≡ true
      → s.want_origin ≡ true
      → head_lines (suc (suc (suc n))) lib (at prev (date_tail date origin)) s
        ≡ filled date origin s
  unfolding date_tail
  date_stage n prev [] origin s h wd wo =
      origin_stage (suc n) prev origin s h.origin_line h.origin_start h.origin_end wo ∙ ground arith
  date_stage n prev (c ∷ d) origin s h wd wo =
      step (suc (suc n)) prev (codes "Last-Modified: " ++ (c ∷ d)) (origin_tail origin) s
        (date_OneLine (c ∷ d) h.date_line) refl
      ∙ ap
          (head_lines (suc (suc n)) lib
            (at (codes "Last-Modified: " ++ (c ∷ d)) (origin_tail origin)))
          (take_date (c ∷ d) (codes "Last-Modified: " ++ ((c ∷ d) ++ (crlf ++ origin_tail origin)))
            s h.date_start h.date_end refl h.date_short wd)
      ∙ origin_stage n (codes "Last-Modified: " ++ (c ∷ d)) origin
          (record s { last_modified = c ∷ d; want_date = false }) h.origin_line h.origin_start
          h.origin_end wo

  length_tail : ℤ → Bytes → Bytes → Bytes
  unfolding date_tail
  length_tail len date origin =
      if le_ℤ (pos 0) len
      then codes "Content-Length: " ++ (print_ℤ len ++ (crlf ++ date_tail date origin))
      else date_tail date origin

  -- The length is read from the text behind it, which begins with no digit.
  read_length : (n : ℕ) (rest : Bytes) → atoll (print_ℤ (pos n) ++ (crlf ++ rest)) ≡ pos n
  read_length n rest = atoll-print_ℤ (pos n) (crlf ++ rest) refl

  length_stage :
      (n : ℕ) (prev date origin : Bytes) (len : ℤ) (s : Slots)
      → Storable date origin
      → s.want_length ≡ true
      → s.want_date ≡ true
      → s.want_origin ≡ true
      → head_lines (suc (suc (suc (suc n)))) lib (at prev (length_tail len date origin)) s
        ≡ record (filled date origin s) {
          content_length = if le_ℤ (pos 0) len then len else s.content_length;
          want_length = not (le_ℤ (pos 0) len);
        }
  unfolding length_tail
  length_stage n prev date origin (negsuc l) s h wl wd wo =
      rw (not_counted l, length_tail) (date_stage (suc n) prev date origin s h wd wo ∙ ground arith)
  length_stage n prev date origin (pos l) s h wl wd wo =
      rw (counted l, length_tail)
        (step (suc (suc (suc n))) prev line (date_tail date origin) s
            (length_OneLine (print_ℤ (pos l)) (digits_OneLine (print_ℤ (pos l)) (print_ℤ-All l)))
            refl
          ∙ ap (head_lines (suc (suc (suc n))) lib (at line (date_tail date origin))) (
              take_length (print_ℤ (pos l)) (print_ℤ (pos l) ++ (crlf ++ date_tail date origin)) s
                wl)
          ∙ date_stage n line date origin
              (record s {
                content_length = atoll (print_ℤ (pos l) ++ (crlf ++ date_tail date origin));
                want_length = false;
              })
              h wd wo
          ∙ ground (arith, read_length l (date_tail date origin)))
    where
      line : Bytes
      line = codes "Content-Length: " ++ print_ℤ (pos l)

  head_text-length_tail :
      (len : ℤ) (date origin : Bytes)
      → head_text len date origin ≡ codes "HTTP/1.1 200 OK" ++ (crlf ++ length_tail len date origin)
  unfolding head_text length_tail
  head_text-length_tail len [] origin = ground arith
  head_text-length_tail len (c ∷ d) origin = ground arith

  abbrev status_ok : Bytes
  status_ok = codes "HTTP/1.1 200 OK"

  next_status :
      (rest : Bytes)
      → next_by_str crlf (walk_over (status_ok ++ (crlf ++ rest))) ≡ some (at status_ok rest)
  unfolding find starts_with
  next_status rest = next_first crlf (omega arith) b'H' (drop 1 (status_ok ++ (crlf ++ rest)))

  opening :
      (rest : Bytes) (s : Slots)
      → parse_head lib (some (status_ok ++ (crlf ++ rest))) s
        ≡ (head_lines (suc (length (status_ok ++ (crlf ++ rest)))) lib (at status_ok rest) s, true)
  unfolding parse_head starts_with
  opening rest s = rw (next_status rest, parse_head) refl

  parsed :
      (len : ℤ) (date origin : Bytes) (s : Slots)
      → Storable date origin
      → s.want_length ≡ true
      → s.want_date ≡ true
      → s.want_origin ≡ true
      → parse_head lib (some (head_text len date origin)) s ≡ (
        record (filled date origin s) {
          content_length = if le_ℤ (pos 0) len then len else s.content_length;
          want_length = not (le_ℤ (pos 0) len);
        },
        true,
      )
  parsed len date origin s h wl wd wo = rw (head_text-length_tail len date origin) (
      opening (length_tail len date origin) s
      ∙ ap (λ (r : Slots). (r, true)) (length_stage _ status_ok date origin len s h wl wd wo))

  -- What StoreHeadToStorage writes, ParseHeadFromStorage reads: a length that is not negative, a
  -- date and an origin come back, and a value that was not written leaves its variable alone. The
  -- date is shorter than tHttpDate's buffer, and neither text holds a CRLF nor begins or ends with
  -- white space.
  pub parse-head_text :
      (len : ℤ) (date origin : Bytes) (l₀ : ℤ) (d₀ o₀ : Bytes)
      → Storable date origin
      → let r = parse_head lib (some (head_text len date origin)) (slots l₀ d₀ o₀) in
        (r.1 ≡ true)
        × (r.0.content_length ≡ (if le_ℤ (pos 0) len then len else l₀))
        × (r.0.last_modified ≡ (if null date then d₀ else date))
        × (r.0.orig_src ≡ (if null origin then o₀ else origin))
  parse-head_text len date origin l₀ d₀ o₀ h =
      rw (parsed len date origin (slots l₀ d₀ o₀) h refl refl refl) (refl, refl, refl, refl)
