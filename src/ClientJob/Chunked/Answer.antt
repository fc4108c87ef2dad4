-- ===== src/ClientJob/Chunked/Answer.antt =====
-- A response of unknown length: what goes out for it, from its header to the last chunk.
use apt_cacher_ng.Base.{
  ◌<◌, ◌≡◌, ap, ◌∙◌, sym, subst, Bool, true, false, some, List, [], ◌++◌, append-nil, arith, Bytes,
  All, length, null, if◌then◌else◌, codes, take,
}
use apt_cacher_ng.Http.{Dates}
use apt_cacher_ng.ClientJob.{
  ClientJob, Served, Texts, r_done, meta_headers, append_meta_headers, http_variant,
}
use apt_cacher_ng.ClientJob.Response.{
  cook_response_header, with_content, goes_chunked, chunked_head,
}
use apt_cacher_ng.ClientJob.Send.{SendEnv, serve, last_chunk}
use apt_cacher_ng.ClientJob.Partial.{IsPlain, cook-plain}
use apt_cacher_ng.ClientJob.Chunked.{encode, join, Honest, Chunking, Outcome}
use apt_cacher_ng.ClientJob.Chunked.Calls.{serve-Outcome}

-- A download that goes on and whose length is not known, for a client that has seen nothing yet and
-- wants the body.
pub record IsOpenEnded (lib : Dates) (fi : Served) (j : ClientJob) : Type 0 where
  pub plain : IsPlain lib fi j
  pub chunks : goes_chunked j fi.item ≡ true
  pub unused : j.wire ≡ []
  pub at_start : j.send_pos ≡ 0
  pub has_body : j.is_head_only ≡ false

-- The header, with all that goes in front of the first chunk.
abbrev pub chunked_answer : Texts → Served → ClientJob → Bytes
chunked_answer t fi j = chunked_head j fi ++ meta_headers t j.keep_alive

not_empty :
    (modern : Bool) (s rest more : Bytes)
    → null ((((if modern then codes "HTTP/1.1 " else codes "HTTP/1.0 ") ++ s) ++ rest) ++ more)
      ≡ true
    → ⊥
not_empty true s rest more h = cc
not_empty false s rest more h = cc

module _ (content : Bytes) (t : Texts) (lib : Dates) (fi : Served) (j : ClientJob)
    (v : IsOpenEnded lib fi j) where
  start-Chunking : Chunking content (chunked_answer t fi j) (cook_response_header t lib (some fi) j)
  unfolding with_content append_meta_headers chunked_head http_variant goes_chunked
  start-Chunking =
      let answer = chunked_answer t fi j in
      rw (cook-plain t lib fi j v.plain, v.chunks)
        (record {
          has_body = v.has_body;
          counted = λ none_left. absurd (not_empty j.is_http11 _ _ _ none_left);
          phase = (
            [],
            ap (λ w. w ++ answer) v.unused ∙ sym (append-nil answer),
            sym (ap (λ n. take n content) v.at_start),
            tt,
            omega (arith, v.at_start),
          );
        })

  pub serve-cook_chunked :
      (es : List SendEnv) (k : ClientJob)
      → All (Honest content) es
      → serve t lib content es (cook_response_header t lib (some fi) j) ≡ (r_done, k)
      → (cs : List Bytes) × (k.wire ≡ chunked_answer t fi j ++ (encode cs ++ last_chunk))
        × (join cs ≡ content)
        × All (λ c. 0 < length c) cs
  serve-cook_chunked es k truth h = subst (Outcome content (chunked_answer t fi j)) h (
      serve-Outcome content (chunked_answer t fi j) t lib es
        (cook_response_header t lib (some fi) j) truth start-Chunking)
