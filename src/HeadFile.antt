-- ===== src/HeadFile.antt =====
-- The `.head` file beside a cached file: ParseHeadFromStorage and StoreHeadToStorage of
-- src/httpdate.cc.
pub mod OneLines
pub mod RoundTrip
use apt_cacher_ng.Base.{
  ℕ, zero, suc, Bool, true, false, not, ◌&&◌, Option, none, some, [], ◌∷◌, ◌++◌, Bytes, codes,
  if◌then◌else◌, starts_with, length, drop, null, ℤ, pos, negsuc, le_ℤ, eq_ℤ,
}
use apt_cacher_ng.Text.{space_chars, crlf, trim_both, Walk, walk_over, view, next_by_str}
use apt_cacher_ng.Text.Decimal.{print_ℤ, atoll}
use apt_cacher_ng.Http.{Dates, http_date, is_set}

-- Where the values go: the variables behind contLen, lastModified and origSrc, and whether each
-- pointer is still set.
pub record Slots : Type 0 where
  pub content_length : ℤ
  pub last_modified : Bytes
  pub orig_src : Bytes
  pub want_length : Bool
  pub want_date : Bool
  pub want_origin : Bool

-- All three pointers are given.
abbrev pub slots : ℤ → Bytes → Bytes → Slots
slots length date origin = record {
  content_length = length;
  last_modified = date;
  orig_src = origin;
  want_length = true;
  want_date = true;
  want_origin = true;
}

abbrev pub cont_len_pfx : Bytes
cont_len_pfx = codes "Content-Length:"

abbrev pub la_mo_pfx : Bytes
la_mo_pfx = codes "Last-Modified: "

abbrev pub orig_src_pfx : Bytes
orig_src_pfx = codes "X-Original-Source: "

-- One line. `input` is the text from the line on: `atoofft` reads there, past the line's end too.
unfoldable pub take_line : Dates → Bytes → Bytes → Slots → Slots
take_line lib line input s =
    if s.want_length && starts_with line cont_len_pfx
    then record s { content_length = atoll (drop 15 input); want_length = false }
    else if s.want_date && starts_with line la_mo_pfx
    then record s {
      last_modified = http_date lib (trim_both space_chars (drop 15 line));
      want_date = false;
    }
    else if s.want_origin && starts_with line orig_src_pfx
    then record s { orig_src = trim_both space_chars (drop 19 line); want_origin = false }
    else s

-- The loop over the lines behind the first; `n` bounds the lines read.
unfoldable pub head_lines : ℕ → Dates → Walk → Slots → Slots
unfolding take_line
head_lines zero lib w s = s
head_lines (suc n) lib w s = elim (next_by_str crlf w) [
  | none ↦ s
  | some w' ↦ elim (null (view w')) [
    | true ↦ s
    | false ↦ head_lines n lib w' (take_line lib (view w') w'.input s)
  ]
]

-- ParseHeadFromStorage on the file's text; `none` is a file that cannot be read. The function is
-- declared to return bool, so its `return -1` in that case is true.
unfoldable pub parse_head : Dates → Option Bytes → Slots → Slots × Bool
unfolding head_lines
parse_head lib none s = (s, true)
parse_head lib (some text) s = elim (next_by_str crlf (walk_over text)) [
  | none ↦ (s, false)
  | some w ↦
      if starts_with (view w) (codes "HTTP/1.1 200")
      then (head_lines (suc (length text)) lib w s, true)
      else (s, false)
]

-- The text that StoreHeadToStorage writes.
unfoldable pub head_text : ℤ → Bytes → Bytes → Bytes
head_text cont_len date origin =
    let last = crlf in
    let origin_line =
      if null origin then last else codes "X-Original-Source: " ++ (origin ++ (crlf ++ last)) in
    let date_line =
      if is_set date
      then codes "Last-Modified: " ++ (date ++ (crlf ++ origin_line))
      else origin_line in
    let length_line =
      if le_ℤ (pos 0) cont_len
      then codes "Content-Length: " ++ (print_ℤ cont_len ++ (crlf ++ date_line))
      else date_line in
    codes "HTTP/1.1 200 OK" ++ (crlf ++ length_line)

-- What StoreHeadToStorage reports: the byte count or -1 of `dumpall`, turned into a bool.
unfoldable pub store_head_result : Bytes → ℤ → Bool
store_head_result path dumped = if null path then false else not (eq_ℤ dumped (pos 0))
