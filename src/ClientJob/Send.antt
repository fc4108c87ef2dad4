-- ===== src/ClientJob/Send.antt =====
-- job::SendData of src/job.cc, called again and again while the connection takes data. `content` are
-- the bytes of the item's file, of which a download may have stored only the front.
use apt_cacher_ng.Base.{
  ℕ, zero, suc, ◌+◌, ◌-◌, ◌/◌, ◌%◌, ◌^◌, Bool, true, false, not, ◌&&◌, ◌||◌, Option, none, some,
  List, [], ◌∷◌, ◌++◌, Bytes, codes, if◌then◌else◌, ◌==◌, ltb, leb, length, take, drop, null, ℤ,
  pos, negsuc, lt_ℤ, le_ℤ, eq_ℤ, ◌+ℤ◌, ◌-ℤ◌, min,
}
use apt_cacher_ng.Text.{crlf}
use apt_cacher_ng.Escape.{h2t}
use apt_cacher_ng.Http.{Dates}
use apt_cacher_ng.FileItem.{FiStatus, rank, complete}
use apt_cacher_ng.ClientJob.{
  ClientJob, Served, Texts, Activity, not_started, send_data, send_chunk_header, send_chunk_data,
  done, disco_asap, send_buf_not_fitem, KeepAlive, close, keep, unspecified, JobResult, r_done,
  r_again, r_discon, put_text, handle_sudden_error,
}
use apt_cacher_ng.ClientJob.Response.{cook_response_header}

-- What ::send of the prepared buffer comes to.
pub data SockResult : Type 0 where
  sent : ℕ → SockResult
  would_block : SockResult
  sock_error : SockResult

-- One call of SendData: whether there is a connection, how ::send ends, the states of the item that
-- a wait sees before its time is up, whether the item's file can be opened, and how many bytes
-- sendfile moves, `none` for an error.
pub record SendEnv : Type 0 where
  pub connected : Bool
  pub sock : SockResult
  pub seen : List (FiStatus × ℤ)
  pub served : Option Served
  pub opens : Bool
  pub moved : Option ℕ

abbrev pub return_discon : ClientJob → JobResult × ClientJob
return_discon j = (r_discon, record j { activity = disco_asap })

unfoldable pub stream_ok : KeepAlive → ClientJob → JobResult × ClientJob
stream_ok keep j = (r_done, record j { activity = done })
stream_ok close j = return_discon j
stream_ok unspecified j =
    if j.is_http11 then (r_done, record j { activity = done }) else return_discon j

unfoldable pub return_stream_ok : ClientJob → JobResult × ClientJob
unfolding stream_ok
return_stream_ok j = stream_ok j.keep_alive j

-- AwaitSendableState; `none` is false.
unfoldable pub await_sendable : ℕ → Bool → List (FiStatus × ℤ) → Option (FiStatus × ℤ)
await_sendable send_pos head_only [] = none
await_sendable send_pos head_only ((st, size) ∷ seen) =
    let later = await_sendable send_pos head_only seen in
    if leb (rank complete) (rank st)
    then (if leb (rank st) (rank complete) then some (st, size) else none)
    else if lt_ℤ (pos send_pos) size || (head_only && leb 3 (rank st))
    then some (st, size)
    else later

abbrev pub awaited_of : Option Served → List (FiStatus × ℤ) → ClientJob → Option (FiStatus × ℤ)
awaited_of none seen j = none
awaited_of (some fi) seen j = await_sendable j.send_pos j.is_head_only seen

abbrev pub awaited : SendEnv → ClientJob → Option (FiStatus × ℤ)
awaited e j = awaited_of e.served e.seen j

-- fi->SendData, from `send_pos` on and of at most `limit` bytes: what goes out.
unfoldable pub item_send_data : Option ℕ → Bool → Bytes → ℕ → ℕ → Option Bytes
item_send_data none open_file content send_pos limit = none
item_send_data (some k) open_file content send_pos limit =
    if open_file then some (take (min k limit) (drop send_pos content)) else none

-- An off_t as a size_t.
abbrev pub to_size : ℤ → ℕ
to_size (pos n) = n
to_size (negsuc n) = 2 ^ 64 - suc n

abbrev pub sent_body : Bytes → ClientJob → ClientJob
sent_body bs j = record j {
  wire = j.wire ++ bs;
  send_pos = j.send_pos + length bs;
  all_data_count = j.all_data_count + length bs;
}

-- `limit` of STATE_SEND_DATA.
unfoldable pub send_limit : ClientJob → ℤ → ℤ
send_limit j size =
    let left = size -ℤ pos j.send_pos in
    let wanted = (j.range_to +ℤ pos 1) -ℤ pos j.send_pos in
    if le_ℤ (pos 0) j.range_to then (if lt_ℤ left wanted then left else wanted) else left

-- What follows fi->SendData in STATE_SEND_DATA.
unfoldable pub data_sent : FiStatus → ℤ → ClientJob → JobResult × ClientJob
data_sent st size j =
    if (rank st == rank complete && eq_ℤ (pos j.send_pos) size)
      || (le_ℤ (pos 0) j.range_to && le_ℤ (j.range_to +ℤ pos 1) (pos j.send_pos))
    then return_stream_ok j
    else (r_again, j)

-- STATE_SEND_DATA, once there is something to send.
unfoldable pub on_send_data : Bytes → SendEnv → FiStatus → ℤ → ClientJob → JobResult × ClientJob
on_send_data content e st size j =
    let j' = record j { file_open = j.file_open || e.opens } in
    let limit = send_limit j size in
    if le_ℤ limit (pos 0)
    then (r_discon, j')
    else elim (item_send_data e.moved j'.file_open content j.send_pos (to_size limit)) [
      | none ↦ return_discon j'
      | some bs ↦ data_sent st size (sent_body bs j')
    ]

-- "%lx".
unfoldable pub hex_onto : ℕ → ℕ → Bytes → Bytes
unfolding h2t
hex_onto zero n out = out
hex_onto (suc fuel) n out =
    let front = hex_onto fuel (n / 16) (h2t (n % 16) ∷ out) in
    if ltb n 16 then h2t n ∷ out else front

unfoldable pub print_hex : ℕ → Bytes
unfolding hex_onto
print_hex n = hex_onto (suc n) n []

abbrev pub last_chunk : Bytes
last_chunk = codes "0" ++ (crlf ++ crlf)

-- STATE_SEND_CHUNK_HEADER.
unfoldable pub on_chunk_header : Texts → SendEnv → FiStatus → ℤ → ClientJob → JobResult × ClientJob
on_chunk_header t e st size j =
    if rank st == rank complete && eq_ℤ (pos j.send_pos) size
    then (r_again, put_text last_chunk (record j { activity = done }))
    else if not e.opens
    then handle_sudden_error t e.served (record j { file_open = false })
    else (
      r_again,
      put_text (print_hex (to_size (size -ℤ pos j.send_pos)) ++ crlf)
          (record j { file_open = true; chunk_end = size; activity = send_chunk_data }),
    )

-- STATE_SEND_CHUNK_DATA, behind fi->SendData.
unfoldable pub chunk_sent : Texts → SendEnv → ClientJob → Option Bytes → JobResult × ClientJob
chunk_sent t e j none = handle_sudden_error t e.served j
chunk_sent t e j (some bs) =
    let j' = sent_body bs j in
    (
      r_again,
      if eq_ℤ (pos j'.send_pos) j.chunk_end
          then put_text crlf (record j' { activity = send_chunk_header })
          else j',
    )

unfoldable pub on_chunk_data : Texts → Bytes → SendEnv → ClientJob → JobResult × ClientJob
unfolding chunk_sent
on_chunk_data t content e j = chunk_sent t e j (
    item_send_data e.moved j.file_open content j.send_pos (to_size (j.chunk_end -ℤ pos j.send_pos)))

abbrev pub after_wait :
    Texts
    → Option (FiStatus × ℤ)
    → SendEnv
    → ClientJob
    → (FiStatus → ℤ → JobResult × ClientJob)
    → JobResult × ClientJob
after_wait t none e j go = handle_sudden_error t e.served j
after_wait t (some (st, size)) e j go = go st size

-- The switch over m_activity.
unfoldable pub dispatch :
    Activity → Texts → Dates → Bytes → SendEnv → ClientJob → JobResult × ClientJob
dispatch done t lib content e j = return_stream_ok j
dispatch not_started t lib content e j =
    after_wait t (awaited e j) e j (λ st size. (r_again, cook_response_header t lib e.served j))
dispatch send_buf_not_fitem t lib content e j = return_stream_ok j
dispatch disco_asap t lib content e j = (r_discon, j)
dispatch send_data t lib content e j =
    if j.is_head_only
    then return_stream_ok j
    else after_wait t (awaited e j) e j (λ st size. on_send_data content e st size j)
dispatch send_chunk_header t lib content e j =
    after_wait t (awaited e j) e j (λ st size. on_chunk_header t e st size j)
dispatch send_chunk_data t lib content e j = on_chunk_data t content e j

unfoldable pub by_activity : Texts → Dates → Bytes → SendEnv → ClientJob → JobResult × ClientJob
by_activity t lib content e j = dispatch j.activity t lib content e j

-- `send` and `drop` of the first `k` bytes of m_sendbuf.
abbrev pub flushed : ℕ → ClientJob → ClientJob
flushed k j = record j {
  wire = j.wire ++ take k j.sendbuf;
  sendbuf = drop k j.sendbuf;
  all_data_count = j.all_data_count + length (take k j.sendbuf);
}

-- SendData once the buffer is out, or what became of it.
unfoldable pub after_flush :
    Texts → Dates → Bytes → SendEnv → SockResult → ClientJob → JobResult × ClientJob
after_flush t lib content e would_block j = (r_again, j)
after_flush t lib content e sock_error j = return_discon j
after_flush t lib content e (sent k) j =
    if null (drop k j.sendbuf)
    then by_activity t lib content e (flushed k j)
    else (r_again, flushed k j)

-- SendData. RunMaintWork, which answers a maintenance request by itself, is left out.
unfoldable pub send_data_call : Texts → Dates → Bytes → SendEnv → ClientJob → JobResult × ClientJob
send_data_call t lib content e j =
    if not e.connected || j.special
    then return_discon j
    else if null j.sendbuf
    then by_activity t lib content e j
    else after_flush t lib content e e.sock j

-- The calls of SendData that conn::WorkLoop makes, as long as it is told to come again.
abbrev pub unless_again :
    JobResult × ClientJob → (ClientJob → JobResult × ClientJob) → JobResult × ClientJob
unless_again (r_again, j) go = go j
unless_again (r_done, j) go = (r_done, j)
unless_again (r_discon, j) go = (r_discon, j)

unfoldable pub serve : Texts → Dates → Bytes → List SendEnv → ClientJob → JobResult × ClientJob
serve t lib content [] j = (r_again, j)
serve t lib content (e ∷ es) j =
    unless_again (send_data_call t lib content e j) (λ j'. serve t lib content es j')
