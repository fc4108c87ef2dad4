-- ===== src/ClientJob/Chunked/Calls.antt =====
-- The calls of SendData that send a response in chunks.
use apt_cacher_ng.Base.{
  ℕ, ◌≡◌, ◌⊎◌, inl, inr, refl, sym, subst, true, false, Bool-cases, Option, none, some, List, [],
  ◌∷◌, arith, Bytes, All, length, drop, null, ℤ, pos, lt_ℤ, ◌-ℤ◌, ◌≤ℤ◌, ◌||◌, not, leb,
}
use apt_cacher_ng.Http.{Dates}
use apt_cacher_ng.FileItem.{FiStatus, rank, complete}
use apt_cacher_ng.ClientJob.{
  ClientJob, Served, Texts, Activity, not_started, send_data, send_chunk_header, send_chunk_data,
  done, disco_asap, send_buf_not_fitem, JobResult, r_done, r_again, r_discon,
}
use apt_cacher_ng.ClientJob.Send.{
  SendEnv, SockResult, sent, would_block, sock_error, await_sendable, chunk_sent, on_chunk_header,
  on_chunk_data, by_activity, dispatch, after_flush, send_data_call, serve, to_size, unless_again,
  awaited, awaited_of, after_wait, flushed,
}
use apt_cacher_ng.ClientJob.Body.{item_send_data-cases, await_sendable-All, some_out, Whole, whole}
use apt_cacher_ng.ClientJob.Chunked
use apt_cacher_ng.ClientJob.Chunked.{
  encode, join, encode-append, join-append, Honest, told-more, flush_told, null-nil,
  handle_sudden_error-Outcome, return_stream_ok-Outcome,
}
use apt_cacher_ng.ClientJob.Chunked.Chunk.{on_chunk_header-Outcome, chunk_data-Outcome}

module _ (content head : Bytes) where
  abbrev Phase : Activity → ClientJob → Type 0
  Phase = Chunked.Phase content head

  abbrev Chunking : ClientJob → Type 0
  Chunking = Chunked.Chunking content head

  abbrev Outcome : JobResult × ClientJob → Type 0
  Outcome = Chunked.Outcome content head

  -- What a wait ends with, for a job with a body.
  await_ready :
      (send_pos : ℕ) (seen : List (FiStatus × ℤ)) (st : FiStatus) (size : ℤ)
      → await_sendable send_pos false seen ≡ some (st, size)
      → (rank st ≡ 5) ⊎ (lt_ℤ (pos send_pos) size ≡ true)
  unfolding await_sendable
  await_ready send_pos [] st size h = cc
  await_ready send_pos ((st', size') ∷ seen) st size h =
      elim (Bool-cases (leb (rank complete) (rank st'))) [
        | inl final ↦ elim (Bool-cases (leb (rank st') (rank complete))) [
          | inl good ↦
              subst (λ (a, b). (rank a ≡ 5) ⊎ (lt_ℤ (pos send_pos) b ≡ true)) {x = (st', size')}
                {y = (st, size)} (ground arith) (inl (ground arith))
          | inr bad ↦ absurd (ground arith)
        ]
        | inr unfinished ↦ elim (Bool-cases (lt_ℤ (pos send_pos) size' || false)) [
          | inl ready ↦ inr (
              subst (λ b. lt_ℤ (pos send_pos) b ≡ true) {x = size'} {y = size} (ground arith)
                (ground arith))
          | inr not_yet ↦ await_ready send_pos seen st size (ground arith)
        ]
      ]

  module _ (t : Texts) (lib : Dates) (e : SendEnv) (truth : Honest content e) where
    on_chunk_data-Outcome :
        (j : ClientJob)
        → Chunking j
        → null j.sendbuf ≡ true
        → Phase send_chunk_data j
        → j.activity ≡ send_chunk_data
        → Outcome (on_chunk_data t content e j)
    unfolding on_chunk_data chunk_sent
    on_chunk_data-Outcome j v empty phase act =
        elim (item_send_data-cases e.moved j.file_open content j.send_pos
          (to_size (j.chunk_end -ℤ pos j.send_pos))) [
            | inl failed ↦
                subst (λ o. Outcome (chunk_sent t e j o)) (sym failed)
                  (handle_sudden_error-Outcome content head t e.served j (v.counted empty))
            | inr (n, le, sent_some) ↦
                subst (λ o. Outcome (chunk_sent t e j o)) (sym sent_some)
                  (chunk_data-Outcome content head t e n j v empty phase le act)
          ]

    waited-Outcome :
        (j : ClientJob) (o : Option (FiStatus × ℤ))
        → awaited e j ≡ o
        → Chunking j
        → null j.sendbuf ≡ true
        → Phase send_chunk_header j
        → Outcome (after_wait t o e j (λ st size. on_chunk_header t e st size j))
    waited-Outcome j none seen v empty phase =
        handle_sudden_error-Outcome content head t e.served j (v.counted empty)
    waited-Outcome j (some (st, size)) seen v empty phase =
        let (le, all, ready) = known e.served seen in
        on_chunk_header-Outcome content head t e st size j le all ready v empty phase
      where
        known :
            (o : Option Served)
            → awaited_of o e.seen j ≡ some (st, size)
            → (size ≤ℤ pos (length content))
              × (rank st ≡ 5 → size ≡ pos (length content))
              × ((rank st ≡ 5) ⊎ (lt_ℤ (pos j.send_pos) size ≡ true))
        known none h = cc
        known (some fi) h =
            let (le, all) =
              await_sendable-All j.send_pos j.is_head_only e.seen
                (λ (a, b). (b ≤ℤ pos (length content)) × Whole content a b) st size truth h in
            (
              le,
              whole content st size all,
              await_ready j.send_pos e.seen st size
                  (subst (λ b. await_sendable j.send_pos b e.seen ≡ some (st, size)) v.has_body h),
            )

    dispatch-Outcome :
        (a : Activity) (j : ClientJob)
        → j.activity ≡ a
        → Chunking j
        → null j.sendbuf ≡ true
        → Phase a j
        → Outcome (dispatch a t lib content e j)
    unfolding dispatch
    dispatch-Outcome done j act v empty phase = return_stream_ok-Outcome content head j empty phase
    dispatch-Outcome send_chunk_header j act v empty phase =
        waited-Outcome j (awaited e j) refl v empty phase
    dispatch-Outcome send_chunk_data j act v empty phase = on_chunk_data-Outcome j v empty phase act
    dispatch-Outcome not_started j act v empty phase = elim phase [ ]
    dispatch-Outcome send_data j act v empty phase = elim phase [ ]
    dispatch-Outcome disco_asap j act v empty phase = elim phase [ ]
    dispatch-Outcome send_buf_not_fitem j act v empty phase = elim phase [ ]

    by_activity-Outcome :
        (j : ClientJob)
        → Chunking j
        → null j.sendbuf ≡ true
        → Outcome (by_activity t lib content e j)
    unfolding by_activity
    by_activity-Outcome j v empty = dispatch-Outcome j.activity j refl v empty v.phase

    flushed-Phase : (a : Activity) (k : ℕ) (j : ClientJob) → Phase a j → Phase a (flushed k j)
    flushed-Phase done k j (cs, told, whole, filled) =
        (cs, flush_told content head k j told, whole, filled)
    flushed-Phase send_chunk_header k j (cs, told, joined, filled, inside) =
        (cs, flush_told content head k j told, joined, filled, inside)
    flushed-Phase send_chunk_data k j (cs, start, stop, a, b, c, d, f, told, joined, filled) =
        (cs, start, stop, a, b, c, d, f, flush_told content head k j told, joined, filled)
    flushed-Phase not_started k j phase = phase
    flushed-Phase send_data k j phase = phase
    flushed-Phase disco_asap k j phase = phase
    flushed-Phase send_buf_not_fitem k j phase = phase

    flushed-Chunking : (k : ℕ) (j : ClientJob) → Chunking j → Chunking (flushed k j)
    flushed-Chunking k j v = record {
      has_body = v.has_body;
      counted = λ all. elim (Bool-cases (null j.sendbuf)) [
        | inl empty ↦ omega (arith, v.counted empty)
        | inr full ↦ omega (arith, some_out k j.sendbuf full all)
      ];
      phase = flushed-Phase j.activity k j v.phase;
    }

    after_flush-Outcome :
        (s : SockResult) (j : ClientJob) → Chunking j → Outcome (after_flush t lib content e s j)
    unfolding after_flush
    after_flush-Outcome would_block j v = v
    after_flush-Outcome sock_error j v = tt
    after_flush-Outcome (sent k) j v = elim (Bool-cases (null (drop k j.sendbuf))) [
      | inl all ↦ rw all (by_activity-Outcome (flushed k j) (flushed-Chunking k j v) all)
      | inr rest ↦ rw rest (flushed-Chunking k j v)
    ]

    send_data_call-Outcome :
        (j : ClientJob) → Chunking j → Outcome (send_data_call t lib content e j)
    unfolding send_data_call
    send_data_call-Outcome j v = elim (Bool-cases (not e.connected || j.special)) [
      | inl away ↦ rw away tt
      | inr here ↦ elim (Bool-cases (null j.sendbuf)) [
        | inl empty ↦ rw (here, empty) (by_activity-Outcome j v empty)
        | inr full ↦ rw (here, full) (after_flush-Outcome e.sock j v)
      ]
    ]

  unless_again-Outcome :
      (m : JobResult × ClientJob) (go : ClientJob → JobResult × ClientJob)
      → Outcome m
      → ((j : ClientJob) → Chunking j → Outcome (go j))
      → Outcome (unless_again m go)
  unless_again-Outcome (r_again, j) go v next = next j v
  unless_again-Outcome (r_done, j) go v next = v
  unless_again-Outcome (r_discon, j) go v next = v

  pub serve-Outcome :
      (t : Texts) (lib : Dates) (es : List SendEnv) (j : ClientJob)
      → All (Honest content) es
      → Chunking j
      → Outcome (serve t lib content es j)
  unfolding serve
  serve-Outcome t lib [] j truth v = v
  serve-Outcome t lib (e ∷ es) j truth v =
      unless_again-Outcome (send_data_call t lib content e j) (λ j'. serve t lib content es j')
        (send_data_call-Outcome t lib e truth.0 j v) (λ j' v'. serve-Outcome t lib es j' truth.1 v')
