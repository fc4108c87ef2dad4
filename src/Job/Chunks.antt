-- ===== src/Job/Chunks.antt =====
-- A body in chunks, as job::SendData writes it (src/job.cc), read by ProcessIncomming (src/dlcon.cc).
use apt_cacher_ng.Base.{
  ℕ, suc, ◌+◌, ◌-◌, ◌*◌, ◌^◌, ◌<◌, ◌≡◌, refl, ap, ◌∙◌, Bool, true, false, some, List, [], ◌∷◌, ◌++◌,
  append_assoc, arith, Bytes, if◌then◌else◌, ◌==◌, ltb, min, length, take, drop, take-append,
  drop-append, length-append, starts_with, mem_byte, ap₂, codes,
}
use apt_cacher_ng.Text.{crlf, find, trim_front}
use apt_cacher_ng.Text.Trimmed.{trim_front_junk}
use apt_cacher_ng.Escape.{h2t}
use apt_cacher_ng.Header.{c_str}
use apt_cacher_ng.ClientJob.Send.{hex_onto, print_hex, last_chunk}
use apt_cacher_ng.Job.Stored.{first_pass, after_pass}
use apt_cacher_ng.Job.HexDigits.{
  read-print_hex, print_hex-All, print_hex-longer, c_str-hex, find-hex, behind_crlf, scan-hex,
  trim-hex,
}
use apt_cacher_ng.Job.{
  hint_reconnect_now, add_result, Sink, Job, StreamState, get_chunk_head, process_chunk_data,
  get_chunk_trailer, get_header, stop, go_on, scan_hex, new_data_handler, data_read, handled,
  chunk_head, chunk_trailer, body_turn, process_body, hint_switch, hint_done, eflag_job_broken,
}

min-append : (c t : Bytes) → min (length (c ++ t)) (length c) ≡ length c
min-append c t = omega (arith, length-append c t)

min_zero : (n : ℕ) → min n 0 ≡ 0
min_zero n = omega arith

sub_self : (n : ℕ) → n - n ≡ 0
sub_self n = omega arith

nonzero : (n : ℕ) → 0 < n → (n == 0) ≡ false
nonzero n h = ground arith

-- What a chunk's line end leaves in front of the next head.
abbrev pub lead : Bool → Bytes
lead true = crlf
lead false = []

trim-lead :
    (b : Bool) (n : ℕ) (t : Bytes)
    → trim_front crlf (lead b ++ (print_hex n ++ t)) ≡ print_hex n ++ t
unfolding mem_byte
trim-lead true n t =
    trim_front_junk crlf 13 (10 ∷ (print_hex n ++ t)) refl
    ∙ trim_front_junk crlf 10 (print_hex n ++ t) refl
    ∙ trim-hex (print_hex n) t (print_hex-longer n) (print_hex-All n)
trim-lead false n t = trim-hex (print_hex n) t (print_hex-longer n) (print_hex-All n)

pub regroup :
    (h c t u : Bytes)
    → (h ++ (crlf ++ (c ++ (crlf ++ t)))) ++ u ≡ h ++ (crlf ++ (c ++ (crlf ++ (t ++ u))))
regroup h c t u = simp append_assoc

abbrev pub turns : ℕ → List Bytes → ℕ
turns m [] = suc (suc (suc m))
turns m (c ∷ cs) = suc (suc (turns m cs))

pub turns-length : (m : ℕ) (cs : List Bytes) → turns m cs ≡ 2 * length cs + 3 + m
turns-length m [] = omega arith
turns-length m (c ∷ cs) = omega (arith, turns-length m cs)

above_zero : (n : ℕ) → 0 < n → ltb 0 n ≡ true
above_zero n h = ground arith

-- What the job returns when the item refuses data.
abbrev pub broken : ℕ
broken = hint_reconnect_now + eflag_job_broken

module _ (K : Sink) (error : Bytes) where
  -- A job that stores what it reads.
  abbrev pub at : StreamState → ℕ → Bytes → K.State → Job K
  at state rest buf item = record {
    state = state;
    rest = rest;
    allow_store_data = true;
    error_msg = error;
    buf = buf;
    item = item;
  }

  chunk_head_parts :
      (j : Job K) {p len : ℕ}
      → find crlf (c_str j.buf) ≡ some p
      → scan_hex (c_str j.buf) ≡ some len
      → chunk_head K j ≡ (
          if ltb 0 len
          then go_on (record j { buf = drop (p + 2) j.buf; rest = len; state = process_chunk_data })
          else go_on (record j { buf = drop (p + 2) j.buf; state = get_chunk_trailer }))
  unfolding chunk_head
  chunk_head_parts j f g = rw (f, chunk_head, g)

  -- The head of a chunk of `n` bytes, or of the last one.
  chunk_head-hex :
      (r n : ℕ) (t : Bytes) (item : K.State)
      → n < 2 ^ 32
      → chunk_head K (at get_chunk_head r (print_hex n ++ 13 ∷ 10 ∷ t) item) ≡ (
          if ltb 0 n
          then go_on (at process_chunk_data n t item)
          else go_on (at get_chunk_trailer r t item))
  unfolding c_str
  chunk_head-hex r n t item small =
      let digits = print_hex-All n in
      let cut = c_str-hex (print_hex n) (13 ∷ 10 ∷ t) digits in
      chunk_head_parts (at get_chunk_head r (print_hex n ++ 13 ∷ 10 ∷ t) item)
        (ap (find crlf) cut ∙ find-hex (print_hex n) (c_str t) digits)
        (ap scan_hex cut
          ∙ scan-hex (print_hex n) (10 ∷ c_str t) n (print_hex-longer n) digits
              (read-print_hex n (10 ∷ c_str t) (omega arith)) small)
      ∙ rw (behind_crlf (print_hex n) t)

  chunk_begun :
      (x : ℕ) (c t : Bytes) (item : K.State)
      → let j = at process_chunk_data (length (x ∷ c)) ((x ∷ c) ++ t) item in
        new_data_handler K 2 j ≡ after_pass K (add_result K (length (x ∷ c)) j (K.add (x ∷ c) item))
  chunk_begun x c t item =
      let j = at process_chunk_data (length (x ∷ c)) ((x ∷ c) ++ t) item in
      first_pass K j (length c) (min-append (x ∷ c) t) refl
      ∙ ap (λ k. after_pass K (add_result K k j (K.add (take k j.buf) j.item)))
          (min-append (x ∷ c) t)
      ∙ ap (λ b. after_pass K (add_result K (length (x ∷ c)) j (K.add b item)))
          (take-append (length (x ∷ c)) (x ∷ c) t refl)

  chunk_pass :
      (x : ℕ) (c t : Bytes) (item item' : K.State)
      → K.add (x ∷ c) item ≡ (item', true)
      → new_data_handler K 2 (at process_chunk_data (length (x ∷ c)) ((x ∷ c) ++ t) item)
        ≡ new_data_handler K 1 (
            at process_chunk_data
              (length (x ∷ c) - length (x ∷ c))
              (drop (length (x ∷ c)) ((x ∷ c) ++ t))
              item')
  unfolding after_pass
  chunk_pass x c t item item' added =
      let j = at process_chunk_data (length (x ∷ c)) ((x ∷ c) ++ t) item in
      chunk_begun x c t item ∙ ap (λ a. after_pass K (add_result K (length (x ∷ c)) j a)) added

  second_pass :
      (t : Bytes) (item : K.State)
      → new_data_handler K 1 (at process_chunk_data 0 t item)
        ≡ stop hint_switch (at get_chunk_head 0 t item)
  unfolding new_data_handler data_read
  second_pass t item = rw (min_zero (length t))

  chunk_data :
      (x : ℕ) (c t : Bytes) (item item' : K.State)
      → K.add (x ∷ c) item ≡ (item', true)
      → new_data_handler K 2 (at process_chunk_data (length (x ∷ c)) ((x ∷ c) ++ t) item)
        ≡ stop hint_switch (at get_chunk_head 0 t item')
  chunk_data x c t item item' added =
      chunk_pass x c t item item' added
      ∙ ap₂ (λ r b. new_data_handler K 1 (at process_chunk_data r b item'))
          (sub_self (length (x ∷ c))) (drop-append (length (x ∷ c)) (x ∷ c) t refl)
      ∙ second_pass t item'

  turn :
      (n : ℕ) (j j' : Job K)
      → body_turn K j ≡ go_on j'
      → process_body K (suc n) j ≡ process_body K n j'
  unfolding process_body
  turn n j j' h = rw (h, process_body)

  turn_last :
      (n : ℕ) (j j' : Job K) {r : ℕ}
      → body_turn K j ≡ stop r j'
      → process_body K (suc n) j ≡ some (r, j')
  unfolding process_body
  turn_last n j j' h = rw (h, process_body)

  head_turn :
      (b : Bool) (r n : ℕ) (t : Bytes) (item : K.State)
      → n < 2 ^ 32
      → body_turn K (at get_chunk_head r (lead b ++ (print_hex n ++ 13 ∷ 10 ∷ t)) item) ≡ (
          if ltb 0 n
          then go_on (at process_chunk_data n t item)
          else go_on (at get_chunk_trailer r t item))
  unfolding body_turn
  head_turn b r n t item small =
      ap (λ s. chunk_head K (at get_chunk_head r s item)) (trim-lead b n (13 ∷ 10 ∷ t))
      ∙ chunk_head-hex r n t item small

  data_turn :
      (x : ℕ) (c t : Bytes) (item item' : K.State)
      → K.add (x ∷ c) item ≡ (item', true)
      → body_turn K (at process_chunk_data (length (x ∷ c)) ((x ∷ c) ++ t) item)
        ≡ go_on (at get_chunk_head 0 t item')
  unfolding body_turn
  data_turn x c t item item' added = ap (handled K) (chunk_data x c t item item' added)

  pub last_turns :
      (b : Bool) (m r : ℕ) (item : K.State)
      → process_body K (suc (suc (suc m))) (at get_chunk_head r (lead b ++ last_chunk) item)
        ≡ some (hint_done, at get_header r [] (K.finish item))
  unfolding print_hex hex_onto h2t process_body body_turn chunk_trailer find starts_with c_str
  last_turns b m r item =
      turn (suc (suc m)) (at get_chunk_head r (lead b ++ last_chunk) item)
        (at get_chunk_trailer r crlf item) (head_turn b r 0 crlf item (omega arith))
      ∙ refl

  head_passed :
      (b : Bool) (n r x : ℕ) (c t : Bytes) (item : K.State)
      → length (x ∷ c) < 2 ^ 32
      → process_body K (suc n) (
          at get_chunk_head r
            (lead b ++ (print_hex (length (x ∷ c)) ++ 13 ∷ 10 ∷ ((x ∷ c) ++ t)))
            item)
        ≡ process_body K n (at process_chunk_data (length (x ∷ c)) ((x ∷ c) ++ t) item)
  head_passed b n r x c t item small =
      turn n _ (at process_chunk_data (length (x ∷ c)) ((x ∷ c) ++ t) item) (
        head_turn b r (length (x ∷ c)) ((x ∷ c) ++ t) item small
        ∙ rw (above_zero (length (x ∷ c)) (omega arith)))

  pub chunk_turns :
      (b : Bool) (n r x : ℕ) (c t : Bytes) (item item' : K.State)
      → length (x ∷ c) < 2 ^ 32
      → K.add (x ∷ c) item ≡ (item', true)
      → process_body K (suc (suc n)) (
          at get_chunk_head r
            (lead b ++ (print_hex (length (x ∷ c)) ++ 13 ∷ 10 ∷ ((x ∷ c) ++ t)))
            item)
        ≡ process_body K n (at get_chunk_head 0 t item')
  chunk_turns b n r x c t item item' small added =
      head_passed b (suc n) r x c t item small
      ∙ turn n _ (at get_chunk_head 0 t item') (data_turn x c t item item' added)

  -- A chunk that the item refuses.
  refused_data :
      (x : ℕ) (c t : Bytes) (item item' : K.State)
      → K.add (x ∷ c) item ≡ (item', false)
      → new_data_handler K 2 (at process_chunk_data (length (x ∷ c)) ((x ∷ c) ++ t) item)
        ≡ stop broken (record (at process_chunk_data (length (x ∷ c)) ((x ∷ c) ++ t) item') {
          error_msg = codes "Cannot store";
        })
  unfolding after_pass
  refused_data x c t item item' refusal =
      chunk_begun x c t item
      ∙ ap
          (λ a. after_pass K (
            add_result K (length (x ∷ c))
              (at process_chunk_data (length (x ∷ c)) ((x ∷ c) ++ t) item) a))
          refusal

  pub refused_turns :
      (b : Bool) (n r x : ℕ) (c t : Bytes) (item item' : K.State)
      → length (x ∷ c) < 2 ^ 32
      → K.add (x ∷ c) item ≡ (item', false)
      → process_body K (suc (suc n)) (
          at get_chunk_head r
            (lead b ++ (print_hex (length (x ∷ c)) ++ 13 ∷ 10 ∷ ((x ∷ c) ++ t)))
            item)
        ≡ some (
          broken,
          record (at process_chunk_data (length (x ∷ c)) ((x ∷ c) ++ t) item') {
            error_msg = codes "Cannot store";
          },
        )
  unfolding body_turn
  refused_turns b n r x c t item item' small refusal =
      head_passed b (suc n) r x c t item small
      ∙ turn_last n (at process_chunk_data (length (x ∷ c)) ((x ∷ c) ++ t) item) _
          (ap (handled K) (refused_data x c t item item' refusal))
