-- ===== src/Job.antt =====
-- The body of a response in tDlJob of src/dlcon.cc: NewDataHandler, and ProcessIncomming from any
-- state but STATE_GETHEADER. The file item behind m_pStorage is an interface, `Sink`.
pub mod Fuel
pub mod Stored
pub mod HexDigits
pub mod Chunks
pub mod Delivered
pub mod Relayed
pub mod OfItem
pub mod Answer
pub mod Resume
use apt_cacher_ng.Base.{
  ℕ, zero, suc, ◌+◌, ◌-◌, ◌*◌, ◌%◌, ◌^◌, ◌≡◌, refl, Bool, true, false, not, ◌&&◌, ◌||◌, Option,
  none, some, [], ◌∷◌, ◌++◌, Bytes, codes, if◌then◌else◌, ◌==◌, ltb, leb, min, length, take, drop,
  null, starts_with,
}
use apt_cacher_ng.Text.{crlf, find, trim_front, space_chars}
use apt_cacher_ng.Escape.{hexmap}
use apt_cacher_ng.Header.{c_str}

-- DlAddData and DlFinish(false) of the item. `valid` and `got` are what a client may rely on:
-- the bytes that were accepted so far.
pub record Sink : Type 1 where
  pub State : Type 0
  pub add : Bytes → State → State × Bool
  pub finish : State → State
  pub Valid : State → Type 0
  pub got : State → Bytes
  pub add-got :
      (chunk : Bytes) (s t : State)
      → Valid s
      → add chunk s ≡ (t, true)
      → Valid t × (got t ≡ got s ++ chunk)

-- EStreamState.
pub data StreamState : Type 0 where
  get_header process_data get_chunk_head process_chunk_data : StreamState
  get_chunk_trailer finish_job : StreamState

-- The values that ProcessIncomming returns, sums of HINT_ and EFLAG_ values.
abbrev pub hint_more : ℕ
hint_more = 0

abbrev pub hint_done : ℕ
hint_done = 1

abbrev pub hint_reconnect_now : ℕ
hint_reconnect_now = 2

abbrev pub eflag_job_broken : ℕ
eflag_job_broken = 4

abbrev pub hint_switch : ℕ
hint_switch = 32

-- The fields of tDlJob that the body needs, with the buffer and the item. m_nRest is not negative
-- here.
pub record Job (K : Sink) : Type 0 where
  pub state : StreamState
  pub rest : ℕ
  pub allow_store_data : Bool
  pub error_msg : Bytes
  pub buf : Bytes
  pub item : K.State

-- sscanf with "%x" into an unsigned int: white space, a sign and "0x" may stand in front. Digits
-- count up to 2 ^ 64 - 1, and the number is cut to 32 bits.
unfoldable pub hex_digits : ℕ → Bytes → ℕ
hex_digits acc [] = acc
hex_digits acc (c ∷ s) =
    let rest = hex_digits (min (acc * 16 + hexmap c) (2 ^ 64 - 1)) s in
    if ltb 15 (hexmap c) then acc else rest

unfoldable pub hex_number : Bytes → Option ℕ
unfolding hex_digits
hex_number [] = none
hex_number (c ∷ s) = if ltb 15 (hexmap c) then none else some (hex_digits 0 (c ∷ s))

unfoldable pub after_0x : Bytes → Bytes
after_0x s = if starts_with s (codes "0x") || starts_with s (codes "0X") then drop 2 s else s

abbrev negated : Option ℕ → Option ℕ
negated none = none
negated (some v) = some ((2 ^ 64 - v) % 2 ^ 32)

abbrev cut_to_32 : Option ℕ → Option ℕ
cut_to_32 none = none
cut_to_32 (some v) = some (v % 2 ^ 32)

unfoldable pub signed_hex : Bytes → Option ℕ
unfolding hex_number after_0x
signed_hex [] = none
signed_hex (c ∷ s) =
    if c == b'-'
    then negated (hex_number (after_0x s))
    else if c == b'+'
    then cut_to_32 (hex_number (after_0x s))
    else cut_to_32 (hex_number (after_0x (c ∷ s)))

unfoldable pub scan_hex : Bytes → Option ℕ
unfolding signed_hex
scan_hex s = signed_hex (trim_front space_chars s)

-- One turn of a loop: a result, or on.
pub data Next (K : Sink) : Type 0 where
  stop : ℕ → Job K → Next K
  go_on : Job K → Next K

module _ (K : Sink) where
  abbrev pub stored : ℕ → Job K → K.State → Job K
  stored n j s = record j { rest = j.rest - n; buf = drop n j.buf; item = s }

  abbrev pub add_result : ℕ → Job K → K.State × Bool → Next K
  add_result n j (s, true) = go_on (stored n j s)
  add_result n j (s, false) =
      stop (hint_reconnect_now + eflag_job_broken)
        (record j { error_msg = codes "Cannot store"; item = s })

  -- The part of NewDataHandler behind its loop.
  unfoldable pub data_read : Job K → Next K
  data_read j =
      if not (j.rest == 0)
      then stop hint_more j
      else stop hint_switch
          (record j { state = elim j.state [ process_data ↦ finish_job | _ ↦ get_chunk_head ] })

  -- One pass of its loop, where there is something to store.
  unfoldable pub store_some : ℕ → Job K → Next K
  store_some n j =
      if j.allow_store_data
      then add_result n j (K.add (take n j.buf) j.item)
      else go_on (stored n j j.item)

  -- NewDataHandler. A pass leaves nothing to store, so that the second ends the loop; `n` bounds
  -- the passes.
  unfoldable pub new_data_handler : ℕ → Job K → Next K
  unfolding data_read store_some
  new_data_handler zero j = data_read j
  new_data_handler (suc n) j =
      let k = min (length j.buf) j.rest in
      if k == 0
      then data_read j
      else elim (store_some k j) [ stop r j' ↦ stop r j' | go_on j' ↦ new_data_handler n j' ]

  abbrev handled : Next K → Next K
  handled (stop r j) = if r == hint_switch then go_on j else stop r j
  handled (go_on j) = go_on j

  -- STATE_GETCHUNKHEAD, once leading line ends are dropped.
  unfoldable pub chunk_head : Job K → Next K
  unfolding scan_hex
  chunk_head j = elim (find crlf (c_str j.buf)) [
    | none ↦ stop hint_more j
    | some p ↦ elim (scan_hex (c_str j.buf)) [
      | none ↦ stop eflag_job_broken (record j { error_msg = codes "Invalid stream" })
      | some len ↦
          if ltb 0 len
          then go_on (record j { buf = drop (p + 2) j.buf; rest = len; state = process_chunk_data })
          else go_on (record j { buf = drop (p + 2) j.buf; state = get_chunk_trailer })
    ]
  ]

  -- STATE_GET_CHUNKTRAILER.
  unfoldable pub chunk_trailer : Job K → Next K
  chunk_trailer j =
      if ltb (length j.buf) 2 then stop hint_more j else elim (find crlf (c_str j.buf)) [
        | none ↦ stop hint_more j
        | some p ↦
            if p == 0
            then go_on (record j { buf = drop 2 j.buf; state = finish_job })
            else go_on (record j { buf = drop (p + 2) j.buf })
      ]

  -- One pass of the loop of ProcessIncomming, behind the header.
  unfoldable pub body_turn : Job K → Next K
  unfolding chunk_head chunk_trailer
  body_turn j = elim j.state [
    | process_data ↦ handled (new_data_handler 2 j)
    | process_chunk_data ↦ handled (new_data_handler 2 j)
    | get_chunk_head ↦ chunk_head (record j { buf = trim_front crlf j.buf })
    | get_chunk_trailer ↦ chunk_trailer j
    | finish_job ↦ stop hint_done (record j { state = get_header; item = K.finish j.item })
    | get_header ↦ stop hint_more j
  ]

  -- ProcessIncomming, entered behind the header. `n` bounds the passes; `none`: it was too small.
  unfoldable pub process_body : ℕ → Job K → Option (ℕ × Job K)
  unfolding body_turn
  process_body zero j = none
  process_body (suc n) j = elim (body_turn j) [
    | stop r j' ↦ some (r, j')
    | go_on j' ↦ process_body n j'
  ]
