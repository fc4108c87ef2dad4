-- ===== src/Tests.antt =====
-- The theorems at concrete inputs: the text parts here, the items and the registry in the children.
mod Items
mod Holders
mod Serving
mod Parts
mod Urls
mod Sums
mod Bodies
mod Answers
use apt_cacher_ng.Header.Forwarded.{extract-allowed_lines}
use apt_cacher_ng.Base.{
  ℕ, ◌≡◌, refl, inl, inr, Bool, true, false, Option, none, some, List, [], ◌∷◌, ◌++◌, arith, Bytes,
  codes, ℤ, pos, negsuc, length, map, take, minus_one, starts_with, mem_byte, All, ◌<◌,
}
use apt_cacher_ng.Text.{
  next_by_str, trim_both, trim_front, find_first_not_of, crlf, space_chars, find, find_last_not_of,
  trim_back, trim_back_string, pieces_by_str, walk_over,
}
use apt_cacher_ng.Text.Pieces.{pieces_join, join}
use apt_cacher_ng.Text.Decimal.{print_ℤ, atoll, atoll-print_ℤ}
use apt_cacher_ng.Escape.{
  hexmap, url_escape, userinfo_escape, dos_escape, url_unescape_append, bytes_to_hex,
  cs_ascii_to_bin,
}
use apt_cacher_ng.Escape.RoundTrip.{
  url_unescape-escape, cs_ascii_to_bin-bytes_to_hex, cs_ascii_to_bin_sound,
}
use apt_cacher_ng.Escape.Malformed.{
  Piece, spelled, meant, no_stray, AreRead, url_unescape_append_pieces,
}
use apt_cacher_ng.Http.{Dates}
use apt_cacher_ng.HeadFile.{parse_head, head_text, slots}
use apt_cacher_ng.HeadFile.RoundTrip.{Storable, parse-head_text}
use apt_cacher_ng.Header.{resolve_pos, new_header, returns, Outcome, Header, same_nocase}
use apt_cacher_ng.Header.Lines.{load_typed, start_type, load_lines, load}
use apt_cacher_ng.Header.Custom.{extract_custom_headers, extract, taboo, is_taboo}
use apt_cacher_ng.Header.Framing.{load-append}

abbrev request : Bytes
request =
    codes "GET http://a/b HTTP/1.1"
    ++ (crlf
        ++ (codes "X-Foo: a"
            ++ (crlf ++ (codes " bc" ++ (crlf ++ (codes "rANGE: x" ++ (crlf ++ crlf)))))))

folded : extract_custom_headers request true ≡ codes "X-Foo: a bc" ++ crlf
unfolding extract_custom_headers load_typed start_type starts_with load_lines next_by_str trim_both
    trim_front find_first_not_of trim_back find_last_not_of find mem_byte resolve_pos
folded = refl

-- Without a map to export to, a field that is not known may not be continued.
folded_unknown : (load request none new_header).0 ≡ returns (negsuc 1)
unfolding load load_typed start_type starts_with load_lines next_by_str trim_both trim_front
    find_first_not_of trim_back find_last_not_of find mem_byte resolve_pos
folded_unknown = refl

request_found : (load request (some []) new_header).0 ≡ returns (pos 52)
unfolding load load_typed start_type starts_with load_lines next_by_str trim_both trim_front
    find_first_not_of trim_back find_last_not_of find mem_byte resolve_pos
request_found = refl

load-append_example :
    load (request ++ codes "body") (some []) new_header ≡ load request (some []) new_header
load-append_example = load-append request (codes "body") (some []) new_header 51 request_found

-- A taboo field and its continuation, and one that is forwarded.
extract-allowed_lines_example :
    extract
      (taboo false)
      ((codes "hOST", codes "a")
        ∷ ([], codes "b")
        ∷ (codes "X-Foo", codes "c")
        ∷ ([], codes "d")
        ∷ [])
      false
      []
    ≡ codes "X-Foo: c d" ++ crlf
unfolding is_taboo same_nocase
extract-allowed_lines_example =
    extract-allowed_lines (taboo false) b'h' (codes "OST") (codes "a")
      (([], codes "b") ∷ (codes "X-Foo", codes "c") ∷ ([], codes "d") ∷ [])

-- A library that knows no other dates.
abbrev plain_dates : Dates
plain_dates = record { reformat = λ d. []; seconds = λ d. none }

abbrev some_date : Bytes
some_date = codes "Wed, 15 Nov 1995 04:58:08 GMT"

abbrev some_origin : Bytes
some_origin = codes "http://deb/a"

storable : Storable some_date some_origin
unfolding find starts_with mem_byte
storable = record {
  date_line = refl;
  date_start = refl;
  date_end = refl;
  date_short = omega arith;
  origin_line = refl;
  origin_start = refl;
  origin_end = refl;
}

parse-head_text_example :
    let r =
      parse_head plain_dates
        (some (head_text (pos 12) some_date some_origin))
        (slots minus_one [] []) in
    (r.1 ≡ true)
    × (r.0.content_length ≡ pos 12)
    × (r.0.last_modified ≡ some_date)
    × (r.0.orig_src ≡ some_origin)
parse-head_text_example =
    parse-head_text plain_dates (pos 12) some_date some_origin minus_one [] [] storable

pieces_join_example :
    let ps = pieces_by_str 7 crlf (walk_over (codes "ab" ++ (crlf ++ codes "cd"))) in
    (join crlf ps ≡ codes "ab" ++ (crlf ++ codes "cd")) × All (λ p. find crlf p ≡ none) ps
pieces_join_example =
    pieces_join crlf (omega arith) (codes "ab" ++ (crlf ++ codes "cd")) (λ e. ground arith)

atoll-print_ℤ_example : atoll (print_ℤ (negsuc 41) ++ codes " kB") ≡ negsuc 41
atoll-print_ℤ_example = atoll-print_ℤ (negsuc 41) (codes " kB") refl

url_unescape-escape_example :
    (url_unescape_append (url_escape (codes "a b")) (codes "/") ≡ (true, codes "/a b"))
    × (url_unescape_append (userinfo_escape (codes "a b")) (codes "/") ≡ (true, codes "/a b"))
    × (url_unescape_append (dos_escape (codes "a b")) (codes "/") ≡ (true, codes "/a b"))
url_unescape-escape_example =
    url_unescape-escape (codes "a b") (codes "/") (omega arith, (omega arith, (omega arith, tt)))

url_unescape_append_pieces_example :
    (ps : List Piece) × (spelled ps ≡ codes "a%zz%41%")
    × AreRead ps
    × (url_unescape_append (codes "a%zz%41%") (codes "/") ≡ (no_stray ps, codes "/" ++ meant ps))
url_unescape_append_pieces_example = url_unescape_append_pieces (codes "a%zz%41%") (codes "/")

-- A fault on both sides of an escape.
unescaped_faults : url_unescape_append (codes "a%zz%41%") (codes "/") ≡ (false, codes "/azzA")
unfolding url_unescape_append hexmap
unescaped_faults = refl

abbrev two_bytes : Bytes
two_bytes = 200 ∷ 7 ∷ []

cs_ascii_to_bin-bytes_to_hex_example :
    cs_ascii_to_bin 2 (bytes_to_hex two_bytes ++ codes " x") ≡ some two_bytes
cs_ascii_to_bin-bytes_to_hex_example =
    cs_ascii_to_bin-bytes_to_hex two_bytes (codes " x") (omega arith, (omega arith, tt))

cs_ascii_to_bin_sound_example :
    (length two_bytes ≡ 2)
    × All (λ c. c < 256) two_bytes
    × (map hexmap (bytes_to_hex two_bytes) ≡ map hexmap (codes "C807"))
cs_ascii_to_bin_sound_example =
    cs_ascii_to_bin_sound 2 (codes "C807") (unfold cs_ascii_to_bin hexmap in refl)
