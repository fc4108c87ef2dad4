-- ===== src/Tests/Bodies.antt =====
-- The theorems on the body of a response, with a file item behind the job.
use apt_cacher_ng.Base.{
  ◌≡◌, ◌≢◌, ◌≤◌, ◌-◌, ◌↔◌, refl, inr, true, none, [], ◌∷◌, ◌++◌, codes, drop, inl,
}
use apt_cacher_ng.Text.{crlf}
use apt_cacher_ng.HeadFile.{store_head_result, head_text}
use apt_cacher_ng.Text.Decimal.{print_ℤ}
use apt_cacher_ng.FileItem.{written}
use apt_cacher_ng.FileItem.Writer.{
  safe_open_out_file, open_steps, open_file, move_release, shrink, position, begin_stream,
}
use apt_cacher_ng.FileItem.Added.{dl_add_data, add_opened, write_chunk, wrote}
use apt_cacher_ng.FileItem.Received.{received}
use apt_cacher_ng.FileItem.Opening.{Ready}
use apt_cacher_ng.Job.{
  Sink, Job, get_chunk_head, process_data, finish_job, stop, hint_switch, new_data_handler,
  process_body,
}
use apt_cacher_ng.Job.Fuel.{process_body-ends}
use apt_cacher_ng.Job.Stored.{new_data_handler-got}
use apt_cacher_ng.Job.OfItem.{item_sink}
use apt_cacher_ng.Tests.Items.{half, opens}

abbrev sink : Sink
sink = item_sink 0 opens (wrote 1 ∷ wrote 9 ∷ []) written

-- Two bytes are still to come, and three more follow in the buffer.
abbrev job : Job sink
job = record {
  state = process_data;
  rest = 2;
  allow_store_data = true;
  error_msg = [];
  buf = codes "deHTT";
  item = half;
}

abbrev read : Job sink
read = record job {
  state = finish_job;
  rest = 0;
  buf = codes "HTT";
  item = (sink.add (codes "de") half).0;
}

job-read : new_data_handler sink 2 job ≡ stop hint_switch read
unfolding new_data_handler dl_add_data safe_open_out_file open_steps open_file move_release shrink
    position begin_stream store_head_result head_text print_ℤ add_opened write_chunk
job-read = refl

new_data_handler-got_example :
    Ready read.item
    × (received read.item ≡ received half ++ codes "de")
    × (codes "HTT" ≡ drop 2 (codes "deHTT"))
    × (0 ≡ 2 - 2)
    × ((hint_switch ≡ hint_switch) ↔ (2 ≤ 5))
new_data_handler-got_example =
    new_data_handler-got sink job read hint_switch refl (inl refl) job-read (inr refl)

abbrev chunked : Job sink
chunked = record job {
  state = get_chunk_head;
  buf =
      codes "2;x"
      ++ (crlf ++ (codes "de" ++ (crlf ++ (codes "0" ++ (crlf ++ (crlf ++ codes "HTTP"))))));
}

process_body-ends_example : process_body sink 21 chunked ≢ none
process_body-ends_example = process_body-ends sink chunked
