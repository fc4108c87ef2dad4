-- ===== src/ClientJob/Chunked/Chunk.antt =====
-- One chunk: it is opened by its header, grows, and is closed.
use apt_cacher_ng.Base.{
  ℕ, ◌+◌, ◌-◌, ◌≤◌, ◌<◌, ◌≡◌, ◌⊎◌, inl, inr, refl, ap, ap₂, ◌∙◌, sym, subst, true, false,
  Bool-cases, List, [], ◌∷◌, ◌++◌, append-nil, append_assoc, arith, Bytes, All, length, take, drop,
  null, length-take, length-drop, take_all, ℤ, pos, negsuc, lt_ℤ, eq_ℤ, eq_ℤ_iff, ◌-ℤ◌, ◌≤ℤ◌, ◌&&◌,
  ◌==◌, not, if◌then◌else◌, All-append, pos_part,
}
use apt_cacher_ng.Text.{crlf}
use apt_cacher_ng.FileItem.{FiStatus, rank, complete}
use apt_cacher_ng.ClientJob.{
  ClientJob, Texts, Activity, send_chunk_header, send_chunk_data, JobResult, put_text,
}
use apt_cacher_ng.ClientJob.Send.{
  SendEnv, on_chunk_header, print_hex, last_chunk, sent_body, to_size,
}
use apt_cacher_ng.ClientJob.Body.{slice-append, take-append-take, whole}
use apt_cacher_ng.ClientJob.Chunked
use apt_cacher_ng.ClientJob.Chunked.{
  encode, join, encode-append, join-append, Honest, told-more, flush_told, null-nil,
  handle_sudden_error-Outcome, return_stream_ok-Outcome,
}

module _ (content head : Bytes) where
  abbrev Phase : Activity → ClientJob → Type 0
  Phase = Chunked.Phase content head

  abbrev Chunking : ClientJob → Type 0
  Chunking = Chunked.Chunking content head

  abbrev Outcome : JobResult × ClientJob → Type 0
  Outcome = Chunked.Outcome content head

  -- The last chunk is sent where the content ends.
  at_end :
      (st : FiStatus) (size : ℤ) (send_pos : ℕ)
      → (rank st ≡ 5 → size ≡ pos (length content))
      → rank st == rank complete && eq_ℤ (pos send_pos) size ≡ true
      → send_pos ≡ length content
  at_end st (pos n) send_pos all over = ground arith
  at_end st (negsuc n) send_pos all over = ground arith

  -- Otherwise there is something to send.
  ahead :
      (st : FiStatus) (size : ℤ) (send_pos : ℕ)
      → size ≤ℤ pos (length content)
      → (rank st ≡ 5 → size ≡ pos (length content))
      → (rank st ≡ 5) ⊎ (lt_ℤ (pos send_pos) size ≡ true)
      → send_pos ≤ length content
      → rank st == rank complete && eq_ℤ (pos send_pos) size ≡ false
      → (stop : ℕ) × (size ≡ pos stop) × (send_pos < stop) × (stop ≤ length content)
  ahead st (pos n) send_pos le all ready inside more = (n, refl, ground arith, ground arith)
  ahead st (negsuc n) send_pos le all ready inside more = absurd (ground arith)

  to_size_lem : (n m : ℕ) → n ≤ m → to_size (pos m -ℤ pos n) ≡ m - n
  unfolding ◌-ℤ◌
  to_size_lem n m h = ground arith

  module _ (t : Texts) (e : SendEnv) where
    chunk_opened :
        (j : ClientJob) (size : ℤ)
        → Chunking j
        → null j.sendbuf ≡ true
        → Phase send_chunk_header j
        → (stop : ℕ) × (size ≡ pos stop) × (j.send_pos < stop) × (stop ≤ length content)
        → Chunking (
            put_text
              (print_hex (to_size (size -ℤ pos j.send_pos)) ++ crlf)
              (record j { file_open = true; chunk_end = size; activity = send_chunk_data }))
    chunk_opened j size v empty (cs, told, joined, filled, inside) (stop, e, lt, le) = record {
      has_body = v.has_body;
      counted = λ h. v.counted empty;
      phase = (
        cs,
        j.send_pos,
        stop,
        e,
        lt,
        omega arith,
        omega arith,
        le,
        told-more content head j.wire j.sendbuf (encode cs)
              (print_hex (to_size (size -ℤ pos j.send_pos)) ++ crlf) told
            ∙ ap (λ y. head ++ (encode cs ++ y))
                (ap₂ (λ n y. print_hex n ++ (crlf ++ y))
                  (ap (λ n. to_size (n -ℤ pos j.send_pos)) e
                    ∙ to_size_lem j.send_pos stop (omega arith))
                  (ap (λ n. take n (drop j.send_pos content)) {x = 0} {y = j.send_pos - j.send_pos}
                    (omega arith))),
        joined,
        filled,
      );
    }

    pub on_chunk_header-Outcome :
        (st : FiStatus) (size : ℤ) (j : ClientJob)
        → size ≤ℤ pos (length content)
        → (rank st ≡ 5 → size ≡ pos (length content))
        → (rank st ≡ 5) ⊎ (lt_ℤ (pos j.send_pos) size ≡ true)
        → Chunking j
        → null j.sendbuf ≡ true
        → Phase send_chunk_header j
        → Outcome (on_chunk_header t e st size j)
    unfolding on_chunk_header
    on_chunk_header-Outcome st size j le all ready v empty (cs, told, joined, filled, inside) =
        elim (Bool-cases (rank st == rank complete && eq_ℤ (pos j.send_pos) size)) [
          | inl over ↦ rw over (record {
            has_body = v.has_body;
            counted = λ h. v.counted empty;
            phase = (
              cs,
              told-more content head j.wire j.sendbuf (encode cs) last_chunk told,
              joined
                  ∙ take_all j.send_pos content (omega (arith, at_end st size j.send_pos all over)),
              filled,
            );
          })
          | inr more ↦ elim (Bool-cases (not e.opens)) [
            | inl shut ↦
                rw (more, shut)
                  (handle_sudden_error-Outcome content head t e.served
                    (record j { file_open = false }) (v.counted empty))
            | inr opens ↦
                rw (more, opens)
                  (chunk_opened j size v empty (cs, told, joined, filled, inside)
                    (ahead st size j.send_pos le all ready inside more))
          ]
        ]

    -- A chunk that has got as far as `b`.
    abbrev open_chunk : List Bytes → ℕ → ℕ → ℕ → Bytes
    open_chunk cs start stop b =
        encode cs ++ (print_hex (stop - start) ++ (crlf ++ take (b - start) (drop start content)))

    chunk_grown :
        (n : ℕ) (j : ClientJob) (cs : List Bytes) (start stop : ℕ)
        → null j.sendbuf ≡ true
        → start ≤ j.send_pos
        → j.wire ++ j.sendbuf ≡ head ++ open_chunk cs start stop j.send_pos
        → let bs = take n (drop j.send_pos content) in
          (j.wire ++ bs) ++ j.sendbuf ≡ head ++ open_chunk cs start stop (j.send_pos + length bs)
    chunk_grown n j cs start stop empty le told =
        let bs = take n (drop j.send_pos content) in
        let nil = null-nil content head j.sendbuf empty in
        ap (λ b. (j.wire ++ bs) ++ b) nil
        ∙ append-nil (j.wire ++ bs)
        ∙ ap (λ x. x ++ bs) (sym (append-nil j.wire) ∙ ap (λ b. j.wire ++ b) (sym nil) ∙ told)
        ∙ tail_lem (take (j.send_pos - start) (drop start content)) bs
        ∙ ap (λ s. head ++ (encode cs ++ (print_hex (stop - start) ++ (crlf ++ s))))
            (slice-append start j.send_pos n content le)
      where
        tail_lem :
            (s bs : Bytes)
            → (head ++ (encode cs ++ (print_hex (stop - start) ++ (crlf ++ s)))) ++ bs
              ≡ head ++ (encode cs ++ (print_hex (stop - start) ++ (crlf ++ (s ++ bs))))
        tail_lem s bs = simp append_assoc

    -- A chunk that is closed.
    chunk_closed :
        (cs : List Bytes) (start stop b : ℕ)
        → start < stop
        → stop ≤ length content
        → b ≡ stop
        → join cs ≡ take start content
        → let c = take (stop - start) (drop start content) in
          (open_chunk cs start stop b ++ crlf ≡ encode (cs ++ c ∷ []))
          × (join (cs ++ c ∷ []) ≡ take stop content)
          × (length c ≡ stop - start)
    chunk_closed cs start stop b lt le e joined =
        let c = take (stop - start) (drop start content) in
        let len : length c ≡ stop - start =
          omega
            (arith, length-take (stop - start) (drop start content), length-drop start content) in
        (
          ap (λ i. open_chunk cs start stop i ++ crlf) e
              ∙ ap (λ i. (encode cs ++ (print_hex i ++ (crlf ++ c))) ++ crlf) (sym len)
              ∙ rebracket c
              ∙ sym (encode-append cs (c ∷ [])),
          join-append cs (c ∷ [])
              ∙ ap₂ (λ a d. a ++ d) joined (append-nil c)
              ∙ take-append-take start (stop - start) stop content (omega arith),
          len,
        )
      where
        rebracket :
            (c : Bytes)
            → (encode cs ++ (print_hex (length c) ++ (crlf ++ c))) ++ crlf
              ≡ encode cs ++ (print_hex (length c) ++ (crlf ++ (c ++ (crlf ++ []))))
        rebracket c = simp (append_assoc, append-nil)

    All-snoc :
        (cs : List Bytes) (c : Bytes)
        → All (λ d. 0 < length d) cs
        → 0 < length c
        → All (λ d. 0 < length d) (cs ++ c ∷ [])
    All-snoc cs c h g = All-append (λ d. 0 < length d) cs (c ∷ []) h (g, tt)

    -- A chunk grows, and is closed where it has all that its header says.
    pub chunk_data-Outcome :
        (n : ℕ) (j : ClientJob)
        → Chunking j
        → null j.sendbuf ≡ true
        → Phase send_chunk_data j
        → n ≤ to_size (j.chunk_end -ℤ pos j.send_pos)
        → j.activity ≡ send_chunk_data
        → let k = sent_body (take n (drop j.send_pos content)) j in
          Chunking (
            if eq_ℤ (pos k.send_pos) j.chunk_end
            then put_text crlf (record k { activity = send_chunk_header })
            else k)
    chunk_data-Outcome n j v empty
          (cs, start, stop, ends, lt, le, le', inside, told, joined, filled) small act =
        let bs = take n (drop j.send_pos content) in
        let k = sent_body bs j in
        let grown = chunk_grown n j cs start stop empty le told in
        let short : j.send_pos + length bs ≤ stop = omega (
          arith,
          length-take n (drop j.send_pos content),
          ap (λ m. to_size (m -ℤ pos j.send_pos)) ends,
          to_size_lem j.send_pos stop le',
        ) in
        elim (Bool-cases (eq_ℤ (pos k.send_pos) j.chunk_end)) [
          | inl over ↦
              let e : k.send_pos ≡ stop =
                ap pos_part ((eq_ℤ_iff (pos k.send_pos) j.chunk_end).0 over ∙ ends) in
              let (closed, whole, len) = chunk_closed cs start stop k.send_pos lt inside e joined in
              rw over (record {
                has_body = v.has_body;
                counted = λ h. omega (arith, v.counted empty);
                phase = (
                  cs ++ take (stop - start) (drop start content) ∷ [],
                  told-more content head (j.wire ++ bs) j.sendbuf
                        (open_chunk cs start stop k.send_pos) crlf grown
                      ∙ ap (λ x. head ++ x) closed,
                  whole ∙ ap (λ i. take i content) (sym e),
                  All-snoc cs (take (stop - start) (drop start content)) filled (omega arith),
                  omega arith,
                );
              })
          | inr more ↦ rw more (record {
            has_body = v.has_body;
            counted = λ h. omega (arith, v.counted empty);
            phase =
                subst (λ a. Phase a k) (sym act)
                  (cs, start, stop, ends, lt, omega arith, short, inside, grown, joined, filled);
          })
        ]
