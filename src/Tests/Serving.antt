-- ===== src/Tests/Serving.antt =====
-- The theorems about serving clients at concrete inputs.
use apt_cacher_ng.Job.{Sink, Job, get_chunk_head, hint_done, process_body}
use apt_cacher_ng.Job.Chunks.{at}
use apt_cacher_ng.Job.Relayed.{serve-process_body}
use apt_cacher_ng.Job.OfItem.{item_sink}
use apt_cacher_ng.Job.Delivered.{Read}
use apt_cacher_ng.FileItem.Added.{wrote}
use apt_cacher_ng.FileItem.{written}
use apt_cacher_ng.Tests.Items.{half, opens}
use apt_cacher_ng.FileItem.Received.{received}
use apt_cacher_ng.Text.{find, trim_front, find_first_not_of}
use apt_cacher_ng.Header.{c_str}
use apt_cacher_ng.Escape.{hexmap}
use apt_cacher_ng.Job.{new_data_handler}
use apt_cacher_ng.FileItem.{dl_finish}
use apt_cacher_ng.FileItem.Added.{dl_add_data, add_opened, write_chunk}
use apt_cacher_ng.FileItem.Writer.{
  safe_open_out_file, open_steps, open_file, move_release, shrink, position, begin_stream,
}
use apt_cacher_ng.HeadFile.{store_head_result, head_text}
use apt_cacher_ng.Base.{
  ℕ, Option, inl, ℕ, zero, suc, ◌+◌, ◌≤◌, ◌≡◌, refl, true, false, none, some, List, [], ◌∷◌, ◌++◌,
  arith, Bytes, All, codes, length, take, drop, replicate, pos, minus_one, ◌-◌, ap, ◌-ℤ◌, ◌+ℤ◌,
  mem_byte, starts_with,
}
use apt_cacher_ng.Text.Decimal.{print_ℤ, print_ℕ, digits_onto}
use apt_cacher_ng.Http.{Dates, is_redirect, must_not_have_body}
use apt_cacher_ng.Escape.{h2t}
use apt_cacher_ng.FileItem.{FileItem, SpecialPurposeAttr, new_item, complete, dl_receiving}
use apt_cacher_ng.ClientJob.{
  ClientJob, Served, Texts, not_started, keep, JobResult, r_done, meta_headers, http_variant,
  append_meta_headers,
}
use apt_cacher_ng.ClientJob.Response.{
  cook_response_header, partial_head, with_content, chunked_head,
}
use apt_cacher_ng.ClientJob.Send.{
  SendEnv, sent, serve, send_data_call, after_flush, by_activity, dispatch, await_sendable,
  on_chunk_header, on_chunk_data, chunk_sent, item_send_data, return_stream_ok, stream_ok,
  print_hex, hex_onto,
}
use apt_cacher_ng.ClientJob.Body.{Truthful}
use apt_cacher_ng.ClientJob.Progress.{IsFair}
use apt_cacher_ng.ClientJob.{parse_range}
use apt_cacher_ng.ClientJob.Scan.{range_text, parse_range-range_text}
use apt_cacher_ng.ClientJob.Response.{goes_chunked}
use apt_cacher_ng.ClientJob.Chunked.{encode, Honest}
use apt_cacher_ng.ClientJob.Chunked.Answer.{IsOpenEnded, chunked_answer}
use apt_cacher_ng.ClientJob.Send.{last_chunk}
use apt_cacher_ng.ClientJob.Partial.{
  IsPlain, Asks, partial_answer, serve-cook_partial, serve-cook_done,
}

abbrev dates : Dates
dates = record { reformat = λ s. s; seconds = λ s. none }

abbrev texts : Texts
texts = record { footer = []; today = codes "now"; version = codes "3" }

abbrev content : Bytes
content = codes "abcdef"

abbrev plain_attr : SpecialPurposeAttr
plain_attr = record {
  volatile = false;
  head_only = false;
  no_store = false;
  range_limit = minus_one;
  credentials = [];
}

-- A complete item of six bytes.
abbrev whole_item : FileItem
whole_item = record (new_item (codes "p") plain_attr) {
  response_status = record { code = pos 200; msg = codes "OK" };
  content_length = pos 6;
  size_checked = pos 6;
  status = complete;
}

abbrev served_whole : Served
served_whole = record { item = whole_item; content_type = codes "t"; raw_header = [] }

-- A request for the second and the third byte.
abbrev asking : ClientJob
asking = record {
  is_http11 = true;
  is_head_only = false;
  keep_alive = keep;
  activity = not_started;
  sendbuf = [];
  special = false;
  if_mo_since = [];
  range_from = pos 1;
  range_to = pos 2;
  send_pos = 0;
  chunk_end = minus_one;
  all_data_count = 0;
  file_open = false;
  wire = [];
}

abbrev big_call : SendEnv
big_call = record {
  connected = true;
  sock = sent 500;
  seen = (complete, pos 6) ∷ [];
  served = some served_whole;
  opens = true;
  moved = some 100;
}

abbrev calls : ℕ → List SendEnv
calls n = replicate n big_call

All-calls : (P : SendEnv → Type 0) (n : ℕ) → P big_call → All P (calls n)
All-calls P zero h = tt
All-calls P (suc n) h = (h, All-calls P n h)

asking-Asks : Asks content 1 3 served_whole asking
asking-Asks = record {
  total = refl;
  start = refl;
  ends = refl;
  nonempty = omega arith;
  inside = omega arith;
  present = refl;
}

asking-IsPlain : IsPlain dates served_whole asking
asking-IsPlain = record { own = refl; fine = refl; newer = refl }

abbrev asked : JobResult × ClientJob
asked =
    serve texts dates content (calls 400)
      (cook_response_header texts dates (some served_whole) asking)

big_call-IsFair : IsFair content big_call
big_call-IsFair = record {
  connected = refl;
  sends = (499, refl);
  present = (served_whole, refl);
  sees = ([], refl);
  opens = refl;
  moves = (99, refl);
}

calls-Truthful : All (Truthful content) (calls 400)
calls-Truthful = All-calls (Truthful content) 400 (refl, tt)

enough_calls :
    length (partial_answer texts served_whole 1 3 6 asking) + (3 - 1) ≤ length (calls 400)
unfolding partial_head meta_headers http_variant print_ℤ print_ℕ digits_onto
enough_calls = omega arith

serve-cook_done_example : asked.0 ≡ r_done
serve-cook_done_example =
    serve-cook_done content 1 3 texts dates served_whole asking asking-Asks asking-IsPlain refl refl
      (calls 400) calls-Truthful (All-calls (IsFair content) 400 big_call-IsFair) refl refl
      enough_calls

as_done : (m : JobResult × ClientJob) → m.0 ≡ r_done → m ≡ (r_done, m.1)
as_done (r, k) h = ap (λ q. (q, k)) h

asked_done : asked ≡ (r_done, asked.1)
asked_done = as_done asked (
    serve-cook_done content 1 3 texts dates served_whole asking asking-Asks asking-IsPlain refl refl
      (calls 400) calls-Truthful (All-calls (IsFair content) 400 big_call-IsFair) refl refl
      enough_calls)

serve-cook_partial_example :
    (asked.1.wire ≡ partial_answer texts served_whole 1 3 6 asking ++ take (3 - 1) (drop 1 content))
    × (length (take (3 - 1) (drop 1 content)) ≡ 3 - 1)
serve-cook_partial_example =
    serve-cook_partial content 1 3 texts dates served_whole asking asking-Asks asking-IsPlain refl
      refl (calls 400) calls-Truthful asked.1 asked_done

-- A download of unknown length, half of which is there.
abbrev growing_item : FileItem
growing_item = record whole_item {
  content_length = minus_one;
  size_checked = pos 3;
  status = dl_receiving;
}

abbrev served_growing : Served
served_growing = record { item = growing_item; content_type = codes "t"; raw_header = [] }

abbrev early_call : SendEnv
early_call = record big_call { seen = (dl_receiving, pos 3) ∷ []; served = some served_growing }

abbrev asking_all : ClientJob
asking_all = record asking { range_from = minus_one; range_to = minus_one }

abbrev growing_calls : List SendEnv
growing_calls = early_call ∷ early_call ∷ calls 4

abbrev streamed : JobResult × ClientJob
streamed =
    serve texts dates content growing_calls
      (cook_response_header texts dates (some served_growing) asking_all)

streamed_done : streamed.0 ≡ r_done
unfolding serve send_data_call cook_response_header with_content goes_chunked is_redirect
    must_not_have_body after_flush by_activity dispatch await_sendable on_chunk_header on_chunk_data
    chunk_sent item_send_data return_stream_ok stream_ok print_hex hex_onto h2t append_meta_headers
    meta_headers chunked_head http_variant print_ℤ print_ℕ digits_onto ◌-ℤ◌ ◌+ℤ◌
streamed_done = refl

asking_all-IsOpenEnded : IsOpenEnded dates served_growing asking_all
unfolding goes_chunked
asking_all-IsOpenEnded = record {
  plain = record { own = refl; fine = refl; newer = refl };
  chunks = refl;
  unused = refl;
  at_start = refl;
  has_body = refl;
}

parse_range-range_text_example :
    let text = codes "bytes=" ++ range_text 5 (some 12) in
    let read : ClientJob = record asking { range_from = pos 5; range_to = pos 12 } in
    (parse_range (some text) none asking ≡ (read, true))
    × (parse_range none (some text) asking ≡ (read, true))
parse_range-range_text_example = parse_range-range_text 5 (some 12) none asking

-- The file item of the other proxy, whose writes succeed.
abbrev file_sink : Sink
file_sink = item_sink 0 opens (wrote 9 ∷ []) written

serve-process_body_example :
    (body : Bytes) × (streamed.1.wire ≡ chunked_answer texts served_growing asking_all ++ body)
    × Read file_sink [] content half
        (process_body file_sink (length body + 3) (at file_sink [] get_chunk_head 0 body half))
serve-process_body_example =
    serve-process_body content texts dates served_growing asking_all asking_all-IsOpenEnded
      file_sink [] growing_calls streamed.1 0 half
      (
        ((omega arith, tt), tt),
        (((omega arith, tt), tt), All-calls (Honest content) 4 ((omega arith, refl), tt)),
      )
      (as_done streamed streamed_done) (omega arith) (inl refl)

abbrev ending : Option (ℕ × Job file_sink) → Option (ℕ × Bytes)
ending none = none
ending (some (r, left)) = some (r, received left.item)

-- It takes what it is given.
two_chunks :
    ending (
      process_body file_sink 20
        (at file_sink [] get_chunk_head 0 (encode (codes "d" ∷ codes "e" ∷ []) ++ last_chunk) half))
    ≡ some (hint_done, codes "abcde")
unfolding process_body find c_str trim_front find_first_not_of print_hex hex_onto h2t mem_byte
    starts_with hexmap new_data_handler dl_add_data safe_open_out_file open_steps open_file
    move_release shrink position begin_stream store_head_result head_text print_ℤ print_ℕ
    digits_onto add_opened write_chunk dl_finish
two_chunks = refl
