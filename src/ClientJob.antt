-- ===== src/ClientJob.antt =====
-- The request job of src/job.cc and src/job.h that answers one request of a client: its fields, the
-- simple responses, and the range of a request.
pub mod Response
pub mod Send
pub mod Scan
pub mod Body
pub mod Chunked
pub mod Partial
pub mod Progress
use apt_cacher_ng.Base.{
  ℕ, zero, suc, ◌+◌, ◌-◌, ◌/◌, ◌%◌, Bool, true, false, not, ◌&&◌, ◌||◌, Option, none, some, [], ◌∷◌,
  ◌++◌, Bytes, codes, if◌then◌else◌, ◌==◌, ltb, leb, length, drop, null, starts_with, ℤ, pos,
  negsuc, lt_ℤ, sub_ℕ, minus_one,
}
use apt_cacher_ng.Text.{space_chars, crlf, trim_front}
use apt_cacher_ng.Text.Decimal.{is_digit, read_digits, after_digits, print_ℕ, print_ℤ}
use apt_cacher_ng.Http.{RemoteStatus}
use apt_cacher_ng.FileItem.{FileItem}

-- eActivity.
pub data Activity : Type 0 where
  not_started send_data send_chunk_header send_chunk_data done : Activity
  disco_asap send_buf_not_fitem : Activity

pub data KeepAlive : Type 0 where
  close keep unspecified : KeepAlive

-- eJobResult, less R_NOTFORUS, which nothing returns.
pub data JobResult : Type 0 where
  r_done r_again r_discon : JobResult

-- The fields of job, less the item. `special` tells whether m_eMaintWorkType is a maintenance task,
-- `file_open` whether m_filefd is valid. `wire` is what went out through the connection.
pub record ClientJob : Type 0 where
  pub is_http11 : Bool
  pub is_head_only : Bool
  pub keep_alive : KeepAlive
  pub activity : Activity
  pub sendbuf : Bytes
  pub special : Bool
  pub if_mo_since : Bytes
  pub range_from : ℤ
  pub range_to : ℤ
  pub send_pos : ℕ
  pub chunk_end : ℤ
  pub all_data_count : ℕ
  pub file_open : Bool
  pub wire : Bytes

-- What the job reads of its item: m_pItem with what GetRawResponseHeader and m_contentType give.
pub record Served : Type 0 where
  pub item : FileItem
  pub content_type : Bytes
  pub raw_header : Bytes

-- What the responses take from elsewhere: GetFooter, the date of the day, and the version.
pub record Texts : Type 0 where
  pub footer : Bytes
  pub today : Bytes
  pub version : Bytes

-- `sendbuf << text`.
abbrev pub put_text : Bytes → ClientJob → ClientJob
put_text s j = record j { sendbuf = j.sendbuf ++ s }

unfoldable pub http_variant : ClientJob → Bytes
http_variant j = if j.is_http11 then codes "HTTP/1.1 " else codes "HTTP/1.0 "

abbrev pub connection_line : KeepAlive → Bytes
connection_line keep = codes "Connection: Keep-Alive" ++ crlf
connection_line close = codes "Connection: close" ++ crlf
connection_line unspecified = []

-- What AppendMetaHeaders appends.
unfoldable pub meta_headers : Texts → KeepAlive → Bytes
meta_headers t k =
    connection_line k
    ++ (codes "Date: "
        ++ (t.today
            ++ (crlf ++ (codes "Server: Debian Apt-Cacher NG/" ++ (t.version ++ (crlf ++ crlf))))))

unfoldable pub append_meta_headers : Texts → ClientJob → ClientJob
unfolding meta_headers
append_meta_headers t j = put_text (meta_headers t j.keep_alive) j

abbrev error_body : Texts → Bytes → Bytes
error_body t message =
    codes "<!DOCTYPE html>"
    ++ (10
        ∷ (codes "<html lang=\"en\"><head><title>"
            ++ (message
                ++ (codes "</title>"
                    ++ (10
                        ∷ (codes "</head>"
                            ++ (10
                                ∷ (codes "<body><h1>"
                                    ++ (message
                                        ++ (codes "</h1></body>"
                                            ++ (t.footer ++ codes "</html>")))))))))))

-- SetEarlySimpleResponse.
unfoldable pub set_early_simple_response : Texts → Bytes → Bool → ClientJob → ClientJob
unfolding http_variant append_meta_headers
set_early_simple_response t message nobody j =
    let start = record j { sendbuf = http_variant j ++ message; activity = send_buf_not_fitem } in
    let body = error_body t message in
    if nobody
    then append_meta_headers t (put_text crlf start)
    else put_text body (
        append_meta_headers t (
          put_text
            (crlf
              ++ (codes "Content-Length: "
                  ++ (print_ℕ (length body)
                      ++ (crlf ++ (codes "Content-Type: text/html" ++ crlf)))))
            start))

-- HandleSuddenError.
unfoldable pub handle_sudden_error : Texts → Option Served → ClientJob → JobResult × ClientJob
unfolding set_early_simple_response
handle_sudden_error t none j =
    if not (j.all_data_count == 0)
    then (r_discon, record j { activity = disco_asap })
    else (r_again, set_early_simple_response t (codes "500 Error creating cache object") false j)
handle_sudden_error t (some fi) j =
    let st = fi.item.response_status in
    if not (j.all_data_count == 0)
    then (r_discon, record j { activity = disco_asap })
    else if lt_ℤ st.code (pos 500)
    then (r_again, set_early_simple_response t (codes "500 Remote or cache error") false j)
    else (
      r_again,
      set_early_simple_response t
          (print_ℤ st.code
            ++ (32 ∷ (if null st.msg then codes "Unknown internal error" else st.msg)))
          false j,
    )

-- "%ld" of sscanf: blanks, a sign, digits; the value and what is left. A value beyond 64 bits is not
-- cut here.
unfoldable pub scan_digits : Bytes → Option (ℕ × Bytes)
scan_digits [] = none
scan_digits (c ∷ s) =
    if is_digit c then some (read_digits 0 (c ∷ s), after_digits (c ∷ s)) else none

abbrev with_sign : Bool → Option (ℕ × Bytes) → Option (ℤ × Bytes)
with_sign negative none = none
with_sign negative (some (n, rest)) = some (if negative then sub_ℕ 0 n else pos n, rest)

unfoldable pub scan_signed : Bytes → Option (ℤ × Bytes)
unfolding scan_digits
scan_signed [] = none
scan_signed (c ∷ s) =
    if c == b'-'
    then with_sign true (scan_digits s)
    else if c == b'+'
    then with_sign false (scan_digits s)
    else with_sign false (scan_digits (c ∷ s))

unfoldable pub scan_long : Bytes → Option (ℤ × Bytes)
unfolding scan_signed
scan_long s = scan_signed (trim_front space_chars s)

-- "%ld-%ld": the first number, and the second if it is there.
abbrev pub value_of : Option (ℤ × Bytes) → Option ℤ
value_of none = none
value_of (some (v, rest)) = some v

abbrev pub second : Bytes → Option ℤ
second [] = none
second (c ∷ s) = if c == b'-' then value_of (scan_long s) else none

abbrev pub after_first : Option (ℤ × Bytes) → Option (ℤ × Option ℤ)
after_first none = none
after_first (some (v, rest)) = some (v, second rest)

unfoldable pub scan_pair : Bytes → Option (ℤ × Option ℤ)
scan_pair s = after_first (scan_long s)

abbrev first_or_again : Option (ℤ × Option ℤ) → Option (ℤ × Option ℤ) → Option (ℤ × Option ℤ)
first_or_again none again = again
first_or_again (some p) again = some p

-- "bytes=%ld-%ld", and "bytes %ld-%ld", where the blank stands for any number of blanks.
unfoldable pub scan_range : Bytes → Option (ℤ × Option ℤ)
scan_range s =
    let again =
      if starts_with s (codes "bytes")
      then scan_pair (trim_front space_chars (drop 5 s))
      else none in
    if starts_with s (codes "bytes=") then first_or_again (scan_pair (drop 6 s)) again else again

abbrev or_kept : ℤ → Option ℤ → ℤ
or_kept old none = old
or_kept old (some v) = v

abbrev first_of : Option Bytes → Option Bytes → Option Bytes
first_of none b = b
first_of (some a) b = some a

abbrev taken : Option (ℤ × Option ℤ) → ClientJob → ClientJob × Bool
taken none j = (record j { range_from = negsuc 1; range_to = negsuc 1 }, false)
taken (some (from, to)) j = (record j { range_from = from; range_to = or_kept j.range_to to }, true)

abbrev parsed : Option Bytes → ClientJob → ClientJob × Bool
parsed none j = (j, false)
parsed (some r) j = taken (scan_range r) j

-- ParseRange, from the fields Range and Content-Range.
unfoldable pub parse_range : Option Bytes → Option Bytes → ClientJob → ClientJob × Bool
parse_range range content_range j = parsed (first_of range content_range) j
