-- ===== src/Job/Fuel.antt =====
-- The loop of ProcessIncomming ends: enough passes are given.
use apt_cacher_ng.Base.{
  ℕ, zero, suc, ◌+◌, ◌≡◌, ◌≢◌, ◌≤◌, ◌<◌, refl, ap, false, Option, none, some, [], ◌∷◌, arith, Bytes,
  length, length-drop, min, inl, inr, Option-cases, Bool-cases, ◌==◌,
}
use apt_cacher_ng.Text.{crlf, find, trim_front}
use apt_cacher_ng.Text.Pieces.{find-fits}
use apt_cacher_ng.Text.Trimmed.{trim_front-FrontTrimmed}
use apt_cacher_ng.Base.{length-append}
use apt_cacher_ng.Header.{c_str}
use apt_cacher_ng.Job.{
  Sink, Job, StreamState, get_header, process_data, get_chunk_head, process_chunk_data,
  get_chunk_trailer, finish_job, Next, stop, go_on, new_data_handler, store_some, data_read,
  handled, chunk_head, chunk_trailer, body_turn, process_body, hint_switch,
}

-- How many passes a state and a buffer's length may still take, less one.
abbrev pub passes : StreamState → ℕ → ℕ
passes get_header n = 0
passes finish_job n = 0
passes get_chunk_trailer n = n + 1
passes get_chunk_head n = n + 1
passes process_data n = n + 2
passes process_chunk_data n = n + 2

length-trim_front : (junk s : Bytes) → length (trim_front junk s) ≤ length s
length-trim_front junk s =
    let v = trim_front-FrontTrimmed junk s in
    omega (arith, ap length v.splits, length-append v.gone (trim_front junk s))

length-c_str : (s : Bytes) → length (c_str s) ≤ length s
unfolding c_str
length-c_str [] = omega arith
length-c_str (c ∷ s) = ground (arith, length-c_str s)

line_fits : (s : Bytes) (p : ℕ) → find crlf (c_str s) ≡ some p → p + 2 ≤ length s
line_fits s p e = omega (arith, find-fits crlf (c_str s) p e, length-c_str s)

module _ (K : Sink) where
  chunk_head-less :
      (j j' : Job K)
      → chunk_head K j ≡ go_on j'
      → passes j'.state (length j'.buf) < length j.buf + 1
  unfolding chunk_head
  chunk_head-less j j' e = elim (Option-cases (find crlf (c_str j.buf))) [
    | inl h ↦ ground arith
    | inr (p, h) ↦ ground (arith, line_fits j.buf p h, length-drop (p + 2) j.buf)
  ]

  chunk_trailer-less :
      (j j' : Job K)
      → j.state ≡ get_chunk_trailer
      → chunk_trailer K j ≡ go_on j'
      → passes j'.state (length j'.buf) < length j.buf + 1
  unfolding chunk_trailer
  chunk_trailer-less j j' at e = elim (Option-cases (find crlf (c_str j.buf))) [
    | inl h ↦ ground arith
    | inr (p, h) ↦ ground (arith, line_fits j.buf p h, length-drop (p + 2) j.buf)
  ]

  -- A read of data ends with a number, and switches to a state that is not one of data.
  data_read-less :
      (j j' : Job K)
      → handled K (data_read K j) ≡ go_on j'
      → passes j'.state (length j'.buf) < length j.buf + 2
  unfolding data_read
  data_read-less j j' e = ground arith

  store_some-shorter :
      (n : ℕ) (j j' : Job K) → store_some K n j ≡ go_on j' → length j'.buf ≤ length j.buf
  unfolding store_some
  store_some-shorter n j j' e = ground (arith, length-drop n j.buf)

  -- A pass that cannot store ends the job, and does not switch.
  store_some-fails :
      (n r : ℕ) (j j' : Job K) → store_some K n j ≡ stop r j' → (r == hint_switch) ≡ false
  unfolding store_some
  store_some-fails n r j j' e = ground arith

  data-less :
      (n : ℕ) (j j' : Job K)
      → handled K (new_data_handler K n j) ≡ go_on j'
      → passes j'.state (length j'.buf) < length j.buf + 2
  unfolding new_data_handler
  data-less zero j j' e = data_read-less j j' e
  data-less (suc n) j j' e = elim (Bool-cases (min (length j.buf) j.rest == 0)) [
    | inl done ↦ data_read-less j j' (ground arith)
    | inr some_left ↦
        go (store_some K (min (length j.buf) j.rest) j) refl (λ j₂. data-less n j₂ j')
          (ground arith)
  ]
    where
      go :
          (t : Next K)
          → store_some K (min (length j.buf) j.rest) j ≡ t
          → ((j₂ : Job K)
              → handled K (new_data_handler K n j₂) ≡ go_on j'
              → passes j'.state (length j'.buf) < length j₂.buf + 2)
          → handled K (elim t [ stop r j₂ ↦ stop r j₂ | go_on j₂ ↦ new_data_handler K n j₂ ])
            ≡ go_on j'
          → passes j'.state (length j'.buf) < length j.buf + 2
      go (stop r j₂) h rec f =
          let no = store_some-fails (min (length j.buf) j.rest) r j j₂ h in ground arith
      go (go_on j₂) h rec f =
          omega (arith, rec j₂ f, store_some-shorter (min (length j.buf) j.rest) j j₂ h)

  turn-less :
      (j j' : Job K)
      → body_turn K j ≡ go_on j'
      → passes j'.state (length j'.buf) < passes j.state (length j.buf)
  unfolding body_turn
  turn-less j j' e = go j.state refl
    where
      go :
          (st : StreamState)
          → j.state ≡ st
          → passes j'.state (length j'.buf) < passes j.state (length j.buf)
      go get_header h = ground arith
      go finish_job h = ground arith
      go process_data h = ground (arith, data-less 2 j j')
      go process_chunk_data h = ground (arith, data-less 2 j j')
      go get_chunk_trailer h = ground (arith, chunk_trailer-less j j')
      go get_chunk_head h = ground (
        arith,
        chunk_head-less (record j { buf = trim_front crlf j.buf }) j',
        length-trim_front crlf j.buf,
      )

  abbrev after_turn : ℕ → Next K → Option (ℕ × Job K)
  after_turn n (stop r j) = some (r, j)
  after_turn n (go_on j) = process_body K n j

  ends : (n : ℕ) (j : Job K) → passes j.state (length j.buf) < n → process_body K n j ≢ none
  unfolding process_body
  ends zero j h = absurd (omega arith)
  ends (suc n) j h = go (body_turn K j) refl (λ j' k. ends n j' k)
    where
      go :
          (t : Next K)
          → body_turn K j ≡ t
          → ((j' : Job K) → passes j'.state (length j'.buf) < n → process_body K n j' ≢ none)
          → after_turn n t ≢ none
      go (stop r j') e rec = λ f. ground arith
      go (go_on j') e rec = rec j' (omega (arith, turn-less j j' e))

  -- With three passes more than the buffer has bytes, ProcessIncomming returns from any state behind
  -- the header, whatever is in the buffer and however often the item refuses data.
  pub process_body-ends : (j : Job K) → process_body K (length j.buf + 3) j ≢ none
  process_body-ends j = ends (length j.buf + 3) j (go j.state)
    where
      go : (st : StreamState) → passes st (length j.buf) < length j.buf + 3
      go get_header = omega arith
      go finish_job = omega arith
      go get_chunk_trailer = omega arith
      go get_chunk_head = omega arith
      go process_data = omega arith
      go process_chunk_data = omega arith
