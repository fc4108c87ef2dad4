-- ===== src/ClientJob/Response.antt =====
-- CookResponseHeader and AddPtHeader of src/job.cc.
use apt_cacher_ng.Base.{
  ℕ, suc, ◌+◌, Bool, true, false, not, ◌&&◌, ◌||◌, Option, none, some, [], ◌∷◌, ◌++◌, Bytes, codes,
  if◌then◌else◌, ◌==◌, length, take, drop, null, ℤ, pos, negsuc, lt_ℤ, le_ℤ, eq_ℤ, ◌+ℤ◌, ◌-ℤ◌,
  minus_one, pos_part,
}
use apt_cacher_ng.Text.{crlf}
use apt_cacher_ng.Text.Decimal.{print_ℤ}
use apt_cacher_ng.Http.{RemoteStatus, Dates, date_value, is_set, is_redirect, must_not_have_body}
use apt_cacher_ng.Header.{lower, c_str}
use apt_cacher_ng.FileItem.{FileItem, FiStatus, dl_receiving}
use apt_cacher_ng.ClientJob.{
  ClientJob, Served, Texts, send_data, send_chunk_header, send_buf_not_fitem, disco_asap, close,
  put_text, http_variant, append_meta_headers, set_early_simple_response,
}

-- strcasestr: where `what` first stands in `s`, whatever the case.
unfoldable pub starts_nocase : Bytes → Bytes → Bool
starts_nocase s [] = true
starts_nocase [] (y ∷ ys) = false
starts_nocase (x ∷ xs) (y ∷ ys) = lower x == lower y && starts_nocase xs ys

unfoldable pub find_nocase : Bytes → Bytes → Option ℕ
unfolding starts_nocase
find_nocase what [] = none
find_nocase what (c ∷ s) =
    let rest = find_nocase what s in
    if starts_nocase (c ∷ s) what then some 0 else elim rest [ none ↦ none | some n ↦ some (suc n) ]

abbrev bad_te : Bytes
bad_te = 10 ∷ codes "Transfer-Encoding:"

abbrev dummy_te : Bytes
dummy_te = 10 ∷ codes "X-No-Trans-Encode:"

abbrev has_at : Option ℕ → Bool
has_at none = false
has_at (some p) = true

-- The remote header with its Transfer-Encoding, if it has one, renamed: chunks are not passed on.
unfoldable pub without_te : Bytes → Option ℕ → ClientJob → ClientJob
without_te head none j = put_text head j
without_te head (some p) j =
    put_text (take p head ++ (dummy_te ++ drop (p + length bad_te) head))
      (record j { keep_alive = close })

-- AddPtHeader. The searches end at a NUL.
unfoldable pub add_pt_header : Bytes → ClientJob → ClientJob
unfolding find_nocase without_te
add_pt_header head j =
    let text = c_str head in
    let j' = without_te head (find_nocase bad_te text) j in
    if has_at (find_nocase (codes "Connection: close" ++ crlf) text)
    then record j' { keep_alive = close }
    else j'

-- `operator>=` of tHttpDate.
unfoldable pub date_ge : Dates → Bytes → Bytes → Bool
unfolding date_value
date_ge lib a b = le_ℤ (date_value lib b (negsuc 1)) (date_value lib a minus_one)

abbrev pub mod_date_line : FileItem → Bytes
mod_date_line i =
    if is_set i.response_mod_date
    then codes "Last-Modified: " ++ (i.response_mod_date ++ crlf)
    else []

abbrev pub source_line : FileItem → Bytes
source_line i =
    if null i.response_origin
    then []
    else codes "X-Original-Source: " ++ (i.response_origin ++ crlf)

abbrev pub type_line : Served → Bytes
type_line fi = codes "Content-Type: " ++ (fi.content_type ++ crlf)

abbrev status_line_from_item : ClientJob → RemoteStatus → Bytes
status_line_from_item j st = http_variant j ++ (print_ℤ st.code ++ (32 ∷ st.msg ++ crlf))

-- The header of a 206, up to what AppendMetaHeaders adds.
unfoldable pub partial_head : ClientJob → Served → ℤ → ℤ → ℤ → ℤ → Bytes
partial_head j fi from last total count =
    http_variant j
    ++ (codes "206 Partial Content"
        ++ (crlf
            ++ (type_line fi
                ++ (mod_date_line fi.item
                    ++ (codes "Content-Range: bytes "
                        ++ (print_ℤ from
                            ++ (45 ∷ print_ℤ last
                                ++ (47 ∷ print_ℤ total
                                    ++ (crlf
                                        ++ (codes "Content-Length: "
                                            ++ (print_ℤ count
                                                ++ (crlf ++ source_line fi.item))))))))))))

-- The header of a 200 with a known length, and of one in chunks.
unfoldable pub full_head : ClientJob → Served → Bytes
full_head j fi =
    http_variant j
    ++ (codes "200 OK"
        ++ (crlf
            ++ (type_line fi
                ++ (mod_date_line fi.item
                    ++ (codes "Content-Length: "
                        ++ (print_ℤ fi.item.content_length ++ (crlf ++ source_line fi.item)))))))

unfoldable pub chunked_head : ClientJob → Served → Bytes
chunked_head j fi =
    status_line_from_item j fi.item.response_status
    ++ (type_line fi
        ++ (mod_date_line fi.item
            ++ (codes "Transfer-Encoding: chunked" ++ (crlf ++ source_line fi.item))))

abbrev is_receiving : FiStatus → Bool
is_receiving dl_receiving = true
is_receiving _ = false

-- goChunked.
unfoldable pub goes_chunked : ClientJob → FileItem → Bool
goes_chunked j i =
    lt_ℤ i.content_length (pos 0)
    && is_receiving i.status
    && not (lt_ℤ (pos 0) j.range_to && le_ℤ j.range_to i.size_checked)

-- The choice between the responses with content, for a status of 200 that the client does not have.
unfoldable pub with_content : Texts → Served → ClientJob → ClientJob
unfolding goes_chunked set_early_simple_response append_meta_headers partial_head full_head
    chunked_head
with_content t fi j =
    let i = fi.item in
    let total = i.content_length in
    if goes_chunked j i
    then append_meta_headers t (
        put_text (chunked_head j fi)
          (record j { activity = send_chunk_header; range_to = minus_one; range_from = pos 0 }))
    else if le_ℤ (pos 0) total && (le_ℤ total j.range_from || lt_ℤ total (j.range_to +ℤ pos 1))
    then set_early_simple_response t (codes "416 Requested Range Not Satisfiable") false j
    else if le_ℤ (pos 0) j.range_from && lt_ℤ j.range_from i.size_checked && lt_ℤ (pos 0) total
    then append_meta_headers t (
        put_text
          (partial_head j fi j.range_from
            (if lt_ℤ (pos 0) j.range_to then j.range_to else total -ℤ pos 1) total
            (if lt_ℤ j.range_to (pos 0)
              then total -ℤ j.range_from
              else (j.range_to +ℤ pos 1) -ℤ j.range_from))
          (record j { send_pos = pos_part j.range_from }))
    else append_meta_headers t
        (put_text (full_head j fi) (record j { range_to = minus_one; range_from = pos 0 }))

-- CookResponseHeader.
unfoldable pub cook_response_header : Texts → Dates → Option Served → ClientJob → ClientJob
unfolding with_content add_pt_header set_early_simple_response append_meta_headers date_ge
cook_response_header t lib none j =
    record (set_early_simple_response t (codes "500 Invalid cache object") false j) {
      activity = disco_asap;
    }
cook_response_header t lib (some fi) j =
    let i = fi.item in
    let status = i.response_status in
    let start = record j { activity = send_data } in
    let clean = record start { sendbuf = [] } in
    if not (null fi.raw_header)
    then add_pt_header fi.raw_header start
    else if is_redirect status.code || must_not_have_body status.code
    then append_meta_headers t (
        put_text
          (status_line_from_item j status
            ++ (if is_redirect status.code
                then codes "Location: " ++ (i.response_origin ++ crlf)
                else []))
          (record clean { activity = send_buf_not_fitem }))
    else if not (eq_ℤ status.code (pos 200))
    then set_early_simple_response t (print_ℤ status.code ++ (32 ∷ status.msg)) false clean
    else if is_set j.if_mo_since
        && is_set i.response_mod_date
        && date_ge lib j.if_mo_since i.response_mod_date
    then set_early_simple_response t (codes "304 Not Modified") true clean
    else with_content t fi clean
