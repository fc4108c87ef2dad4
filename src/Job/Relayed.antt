-- ===== src/Job/Relayed.antt =====
-- A response of unknown length on its way through two proxies: job::SendData of the one (src/job.cc)
-- and ProcessIncomming of the other (src/dlcon.cc).
use apt_cacher_ng.Base.{
  ℕ, ◌+◌, ◌*◌, ◌^◌, ◌<◌, ◌≤◌, ◌≡◌, ap, some, List, [], ◌∷◌, ◌++◌, arith, Bytes, All, length,
  length-append, subst,
}
use apt_cacher_ng.Text.{crlf}
use apt_cacher_ng.Http.{Dates}
use apt_cacher_ng.ClientJob.{ClientJob, Served, Texts, r_done}
use apt_cacher_ng.ClientJob.Response.{cook_response_header}
use apt_cacher_ng.ClientJob.Send.{SendEnv, serve, last_chunk, print_hex}
use apt_cacher_ng.ClientJob.Chunked.{encode, join, Honest}
use apt_cacher_ng.ClientJob.Chunked.Answer.{IsOpenEnded, chunked_answer, serve-cook_chunked}
use apt_cacher_ng.Job.{Sink, get_chunk_head, process_body}
use apt_cacher_ng.Job.Chunks.{at}
use apt_cacher_ng.Job.Delivered.{Read, process_body-encode}

length-encode : (cs : List Bytes) → 2 * length cs ≤ length (encode cs)
length-encode [] = omega arith
length-encode (c ∷ cs) =
    let rest = c ++ (crlf ++ encode cs) in
    omega (
      arith,
      length-encode cs,
      length-append (print_hex (length c)) (crlf ++ rest),
      length-append c (crlf ++ encode cs),
    )

-- Chunks are no longer than what they hold together.
short_chunks :
    (cs : List Bytes) (bound : ℕ)
    → All (λ c. 0 < length c) cs
    → length (join cs) < bound
    → All (λ c. (0 < length c) × (length c < bound)) cs
short_chunks [] bound h k = tt
short_chunks (c ∷ cs) bound h k =
    let whole = length-append c (join cs) in
    ((h.0, omega (arith, whole)), short_chunks cs bound h.1 (omega (arith, whole)))

module _ (content : Bytes) (t : Texts) (lib : Dates) (fi : Served) (j : ClientJob)
    (v : IsOpenEnded lib fi j) (K : Sink) (error : Bytes) where
  -- A response of unknown length of less than 2 ^ 32 bytes, for a client that has seen nothing yet
  -- and wants the body: whatever the calls of SendData meet, an item with no more than the content
  -- and, when complete, all of it, once the job is done there is a body behind the header from which
  -- ProcessIncomming, within three passes more than it has bytes, returns. Either it is done, has
  -- used up the buffer, and has finished an item that got the content behind all it had; or the item
  -- refused a piece of the content, has got exactly what stands in front of that, and the job breaks
  -- with "Cannot store".
  pub serve-process_body :
      (es : List SendEnv) (k : ClientJob) (r : ℕ) (item : K.State)
      → All (Honest content) es
      → serve t lib content es (cook_response_header t lib (some fi) j) ≡ (r_done, k)
      → length content < 2 ^ 32
      → K.Valid item
      → (body : Bytes) × (k.wire ≡ chunked_answer t fi j ++ body)
        × Read K error content item
            (process_body K (length body + 3) (at K error get_chunk_head r body item))
  serve-process_body es k r item truth h small valid =
      let (cs, told, whole, filled) = serve-cook_chunked content t lib fi j v es k truth h in
      let body = encode cs ++ last_chunk in
      let enough : 2 * length cs + 3 ≤ length body + 3 =
        omega (arith, length-encode cs, length-append (encode cs) last_chunk) in
      (
        body,
        told,
        subst
            (λ c.
              Read K error c item
                (process_body K (length body + 3) (at K error get_chunk_head r body item)))
            whole
            (process_body-encode K error cs (length body + 3) r item
              (short_chunks cs (2 ^ 32) filled (omega (arith, ap length whole))) enough valid),
      )
