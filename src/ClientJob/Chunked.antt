-- ===== src/ClientJob/Chunked.antt =====
-- A response in chunks: what the calls of SendData send behind its header.
pub mod Chunk
pub mod Calls
pub mod Answer
use apt_cacher_ng.Base.{
  ℕ, zero, suc, ◌+◌, ◌-◌, ◌≤◌, ◌<◌, ◌≡◌, ◌⊎◌, inl, inr, refl, ap, ap₂, ◌∙◌, sym, subst, Bool, true,
  false, Bool-cases, Option, none, some, List, [], ◌∷◌, ◌++◌, append-nil, append_assoc, arith,
  Bytes, All, length, take, drop, null, min, length-append, length-take, length-drop,
  take-append-drop, take_all, ℤ, pos, negsuc, lt_ℤ, eq_ℤ, eq_ℤ_iff, ◌-ℤ◌, ◌≤ℤ◌, ◌&&◌, ◌||◌, ◌==◌,
  not, if◌then◌else◌, leb, All-append, pos_part,
}
use apt_cacher_ng.Text.{crlf}
use apt_cacher_ng.Http.{Dates}
use apt_cacher_ng.FileItem.{FiStatus, rank, complete}
use apt_cacher_ng.ClientJob.{
  ClientJob, Served, Texts, Activity, not_started, send_data, send_chunk_header, send_chunk_data,
  done, disco_asap, send_buf_not_fitem, KeepAlive, JobResult, r_done, r_again, r_discon,
  handle_sudden_error, put_text,
}
use apt_cacher_ng.ClientJob.Send.{
  SendEnv, SockResult, sent, would_block, sock_error, return_stream_ok, stream_ok, await_sendable,
  item_send_data, chunk_sent, on_chunk_header, on_chunk_data, by_activity, dispatch, after_flush,
  send_data_call, serve, print_hex, last_chunk, sent_body, to_size, unless_again, awaited,
  awaited_of, after_wait, flushed,
}
use apt_cacher_ng.ClientJob.Body.{
  slice-append, take-append-take, item_send_data-cases, await_sendable-All, some_out, Whole, whole,
}

-- Chunks as they stand in a response, and what they hold.
abbrev pub encode : List Bytes → Bytes
encode [] = []
encode (c ∷ cs) = print_hex (length c) ++ (crlf ++ (c ++ (crlf ++ encode cs)))

abbrev pub join : List Bytes → Bytes
join [] = []
join (c ∷ cs) = c ++ join cs

pub encode-append : (cs ds : List Bytes) → encode (cs ++ ds) ≡ encode cs ++ encode ds
encode-append [] ds = refl
encode-append (c ∷ cs) ds = simp (encode-append cs ds, append_assoc)

pub join-append : (cs ds : List Bytes) → join (cs ++ ds) ≡ join cs ++ join ds
join-append [] ds = refl
join-append (c ∷ cs) ds = simp (join-append cs ds, append_assoc)

-- An item has no more than the content, and all of it when it is complete.
abbrev pub Honest : Bytes → SendEnv → Type 0
Honest content e = All (λ (st, size). (size ≤ℤ pos (length content)) × Whole content st size) e.seen

module _ (content head : Bytes) where
  -- Between two chunks, within one, and behind the last.
  abbrev pub Phase : Activity → ClientJob → Type 0
  Phase send_chunk_header j =
      (cs : List Bytes) × (j.wire ++ j.sendbuf ≡ head ++ encode cs)
      × (join cs ≡ take j.send_pos content)
      × All (λ c. 0 < length c) cs
      × (j.send_pos ≤ length content)
  Phase send_chunk_data j =
      (cs : List Bytes) × (start : ℕ) × (stop : ℕ) × (j.chunk_end ≡ pos stop)
      × (start < stop)
      × (start ≤ j.send_pos)
      × (j.send_pos ≤ stop)
      × (stop ≤ length content)
      × (j.wire ++ j.sendbuf
          ≡ head
            ++ (encode cs
                ++ (print_hex (stop - start)
                    ++ (crlf ++ take (j.send_pos - start) (drop start content)))))
      × (join cs ≡ take start content)
      × All (λ c. 0 < length c) cs
  Phase done j =
      (cs : List Bytes) × (j.wire ++ j.sendbuf ≡ head ++ (encode cs ++ last_chunk))
      × (join cs ≡ content)
      × All (λ c. 0 < length c) cs
  Phase _ j = ⊥

  pub record Chunking (j : ClientJob) : Type 0 where
    pub has_body : j.is_head_only ≡ false
    pub counted : null j.sendbuf ≡ true → 0 < j.all_data_count
    pub phase : Phase j.activity j

  abbrev pub Finished : ClientJob → Type 0
  Finished k =
      (cs : List Bytes) × (k.wire ≡ head ++ (encode cs ++ last_chunk))
      × (join cs ≡ content)
      × All (λ c. 0 < length c) cs

  abbrev pub Outcome : JobResult × ClientJob → Type 0
  Outcome (r_again, j) = Chunking j
  Outcome (r_done, j) = Finished j
  Outcome (r_discon, j) = Unit {0}

  pub null-nil : (s : Bytes) → null s ≡ true → s ≡ []
  null-nil [] h = refl
  null-nil (c ∷ s) h = cc

  stream_ok-Outcome : (k : KeepAlive) (j : ClientJob) → Finished j → Outcome (stream_ok k j)
  unfolding stream_ok
  stream_ok-Outcome KeepAlive.keep j v = v
  stream_ok-Outcome KeepAlive.close j v = tt
  stream_ok-Outcome KeepAlive.unspecified j v = elim (Bool-cases j.is_http11) [
    | inl modern ↦ rw modern v
    | inr old ↦ rw old tt
  ]

  pub return_stream_ok-Outcome :
      (j : ClientJob) → null j.sendbuf ≡ true → Phase done j → Outcome (return_stream_ok j)
  unfolding return_stream_ok
  return_stream_ok-Outcome j empty (cs, told, whole, filled) = stream_ok-Outcome j.keep_alive j (
    cs,
    sym (append-nil j.wire) ∙ ap (λ b. j.wire ++ b) (sym (null-nil j.sendbuf empty)) ∙ told,
    whole,
    filled,
  )

  nonzero : (j : ClientJob) → 0 < j.all_data_count → (j.all_data_count == 0) ≡ false
  nonzero j h = ground arith

  pub handle_sudden_error-Outcome :
      (t : Texts) (served : Option Served) (j : ClientJob)
      → 0 < j.all_data_count
      → Outcome (handle_sudden_error t served j)
  unfolding handle_sudden_error
  handle_sudden_error-Outcome t none j h = rw (nonzero j h) tt
  handle_sudden_error-Outcome t (some fi) j h = rw (nonzero j h) tt

  pub told-more :
      (wire sendbuf x s : Bytes)
      → wire ++ sendbuf ≡ head ++ x
      → wire ++ (sendbuf ++ s) ≡ head ++ (x ++ s)
  told-more wire sendbuf x s h =
      sym (append_assoc wire sendbuf s) ∙ ap (λ w. w ++ s) h ∙ append_assoc head x s

  pub flush_told :
      (k : ℕ) (j : ClientJob) {x : Bytes}
      → j.wire ++ j.sendbuf ≡ x
      → (j.wire ++ take k j.sendbuf) ++ drop k j.sendbuf ≡ x
  flush_told k j told =
      append_assoc j.wire (take k j.sendbuf) (drop k j.sendbuf)
      ∙ ap (λ s. j.wire ++ s) (take-append-drop k j.sendbuf)
      ∙ told
