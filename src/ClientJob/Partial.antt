-- ===== src/ClientJob/Partial.antt =====
-- A request for a part of a file: the 206 that CookResponseHeader announces is what is sent.
use apt_cacher_ng.Base.{
  ℕ, zero, suc, ◌+◌, ◌-◌, ◌≤◌, ◌<◌, ◌≡◌, refl, ap, ◌∙◌, sym, subst, Bool, true, false, ◌&&◌, ◌||◌,
  some, List, [], ◌++◌, append-nil, arith, Bytes, All, length, take, drop, null, length-take,
  length-drop, ℤ, pos, negsuc, lt_ℤ, le_ℤ, ◌+ℤ◌, ◌-ℤ◌, if◌then◌else◌, pos_part, not, eq_ℤ, ap₂,
  codes,
}
use apt_cacher_ng.Http.{Dates, is_set, is_redirect, must_not_have_body}
use apt_cacher_ng.ClientJob.{
  ClientJob, Served, Texts, send_data, keep, r_done, meta_headers, append_meta_headers, put_text,
  http_variant,
}
use apt_cacher_ng.ClientJob.Response.{
  cook_response_header, with_content, goes_chunked, date_ge, partial_head,
}
use apt_cacher_ng.ClientJob.Send.{SendEnv, serve}
use apt_cacher_ng.ClientJob.Progress.{IsFair, serve-done}
use apt_cacher_ng.ClientJob.Body.{Stops, Truthful, Sending, Outcome, serve-Outcome}

-- An item of status 200 with a header of its own, which the client does not have yet.
pub record IsPlain (lib : Dates) (fi : Served) (j : ClientJob) : Type 0 where
  pub own : fi.raw_header ≡ []
  pub fine : fi.item.response_status.code ≡ pos 200
  pub newer :
      (is_set j.if_mo_since
        && is_set fi.item.response_mod_date
        && date_ge lib j.if_mo_since fi.item.response_mod_date)
      ≡ false

-- The job when a header is chosen.
abbrev pub cleaned : ClientJob → ClientJob
cleaned j = record j { activity = send_data; sendbuf = [] }

pub cook-plain :
    (t : Texts) (lib : Dates) (fi : Served) (j : ClientJob)
    → IsPlain lib fi j
    → cook_response_header t lib (some fi) j ≡ with_content t fi (cleaned j)
unfolding cook_response_header is_redirect must_not_have_body
cook-plain t lib fi j v =
    let own : not (null fi.raw_header) ≡ false = rw v.own refl in
    let with_body : (is_redirect fi.item.response_status.code
          || must_not_have_body fi.item.response_status.code)
        ≡ false =
      rw v.fine refl in
    let ok : not (eq_ℤ fi.item.response_status.code (pos 200)) ≡ false = rw v.fine refl in
    rw (own, with_body, ok, v.newer) refl

-- The last byte that the header names: the last of the range, but the last of the whole where the
-- range ends at the first byte.
abbrev pub announced : ℤ → ℕ → ℕ → ℕ
announced (pos zero) stop total = total - 1
announced (pos (suc b)) stop total = stop - 1
announced (negsuc b) stop total = stop - 1

-- The client asks for the bytes from `a` up to but not including `stop`, and the first is there.
pub record Asks (content : Bytes) (a stop : ℕ) (fi : Served) (j : ClientJob) : Type 0 where
  pub total : fi.item.content_length ≡ pos (length content)
  pub start : j.range_from ≡ pos a
  pub ends : Stops content stop j.range_to
  pub nonempty : a < stop
  pub inside : stop ≤ length content
  pub present : lt_ℤ (pos a) fi.item.size_checked ≡ true

module _ (a n stop : ℕ) (content : Bytes) (long : n ≡ length content) (nonempty : a < stop)
    (inside : stop ≤ n) where
  satisfiable :
      (to : ℤ)
      → Stops content stop to
      → (le_ℤ (pos 0) (pos n) && (le_ℤ (pos n) (pos a) || lt_ℤ (pos n) (to +ℤ pos 1))) ≡ false
  unfolding ◌+ℤ◌
  satisfiable (pos b) ends = ground arith
  satisfiable (negsuc b) ends = ground arith

  last_lem :
      (to : ℤ)
      → Stops content stop to
      → (if lt_ℤ (pos 0) to then to else pos n -ℤ pos 1) ≡ pos (announced to stop n)
  unfolding ◌-ℤ◌
  last_lem (pos zero) ends = ground arith
  last_lem (pos (suc b)) ends = ground arith
  last_lem (negsuc b) ends = ground arith

  count_lem :
      (to : ℤ)
      → Stops content stop to
      → (if lt_ℤ to (pos 0) then pos n -ℤ pos a else (to +ℤ pos 1) -ℤ pos a) ≡ pos (stop - a)
  unfolding ◌+ℤ◌ ◌-ℤ◌
  count_lem (pos b) ends = ground arith
  count_lem (negsuc b) ends = ground arith

-- The job once a 206 is prepared.
abbrev prepared : Texts → Served → ℤ → ℤ → ℤ → ℤ → ClientJob → ClientJob
prepared t fi from last total count j =
    append_meta_headers t
      (put_text (partial_head j fi from last total count) (record j { send_pos = pos_part from }))

abbrev offered : Texts → Served → ℕ → ℕ → ℕ → ClientJob → ClientJob
offered t fi a stop total j =
    prepared t fi (pos a) (pos (announced j.range_to stop total)) (pos total) (pos (stop - a)) j

-- The header of such a response, with all that goes in front of the bytes.
abbrev pub partial_answer : Texts → Served → ℕ → ℕ → ℕ → ClientJob → Bytes
partial_answer t fi a stop total j =
    partial_head j fi (pos a) (pos (announced j.range_to stop total)) (pos total) (pos (stop - a))
    ++ meta_headers t j.keep_alive

module _ (content : Bytes) (a stop : ℕ) (t : Texts) (lib : Dates) (fi : Served) (j : ClientJob)
    (v : Asks content a stop fi j) where
  not_chunked : goes_chunked (cleaned j) fi.item ≡ false
  unfolding goes_chunked
  not_chunked = rw v.total (ground arith)

  with_content-offered :
      with_content t fi (cleaned j) ≡ offered t fi a stop (length content) (cleaned j)
  unfolding with_content
  with_content-offered =
      let t1 : goes_chunked (cleaned j) fi.item ≡ false = not_chunked in
      let t2 : (le_ℤ (pos 0) fi.item.content_length
            && (le_ℤ fi.item.content_length j.range_from
                || lt_ℤ fi.item.content_length (j.range_to +ℤ pos 1)))
          ≡ false =
        rw (v.total, v.start)
          (satisfiable a (length content) stop content refl v.nonempty v.inside j.range_to
            v.ends) in
      let t3 : (le_ℤ (pos 0) j.range_from
            && lt_ℤ j.range_from fi.item.size_checked
            && lt_ℤ (pos 0) fi.item.content_length)
          ≡ true =
        rw (v.total, v.start, v.present) (ground (arith, v.nonempty, v.inside)) in
      let last =
        ap (λ n. if lt_ℤ (pos 0) j.range_to then j.range_to else n -ℤ pos 1) v.total
        ∙ last_lem a (length content) stop content refl v.nonempty v.inside j.range_to v.ends in
      let count =
        ap₂ (λ n m. if lt_ℤ j.range_to (pos 0) then n -ℤ m else (j.range_to +ℤ pos 1) -ℤ m) v.total
          v.start
        ∙ count_lem a (length content) stop content refl v.nonempty v.inside j.range_to v.ends in
      rw (t1, t2, t3) (λ i. prepared t fi (v.start i) (last i) (v.total i) (count i) (cleaned j))

  module _ (plain : IsPlain lib fi j) (unused : j.wire ≡ []) (has_body : j.is_head_only ≡ false)
      (es : List SendEnv) (truth : All (Truthful content) es) where
    -- A header is not empty.
    not_empty :
        (modern : Bool) (s rest : Bytes)
        → null (((if modern then codes "HTTP/1.1 " else codes "HTTP/1.0 ") ++ s) ++ rest) ≡ true
        → ⊥
    not_empty true s rest h = cc
    not_empty false s rest h = cc

    offered-Sending :
        Sending content
          (partial_answer t fi a stop (length content) j)
          a
          stop
          j.range_to
          (offered t fi a stop (length content) (cleaned j))
    unfolding append_meta_headers partial_head http_variant
    offered-Sending = record {
      sends = refl;
      has_body = has_body;
      wanted = refl;
      telling = record {
        begun = omega arith;
        within = omega (arith, v.nonempty);
        told =
            ap (λ w. w ++ (partial_answer t fi a stop (length content) j)) unused
            ∙ sym (append-nil (partial_answer t fi a stop (length content) j))
            ∙ ap (λ n. (partial_answer t fi a stop (length content) j) ++ take n (drop a content))
                {x = 0} {y = a - a} (omega arith);
      };
      counted = λ none_left. absurd (not_empty j.is_http11 _ _ none_left);
    }

    -- A request for the bytes from `a` to `stop - 1`, of a plain item whose length is known and which
    -- has the first of them, from a job that has sent nothing yet and wants the body: whatever the
    -- calls of SendData meet, an item that is complete only with all of the content, once the job is
    -- done, exactly a header with the range from `a`, the count of the bytes and the length of the
    -- whole, and then these bytes went out. The header names `stop - 1` as the last byte, but the
    -- last byte of the whole for a range that ends at byte 0.
    pub serve-cook_partial :
        (k : ClientJob)
        → serve t lib content es (cook_response_header t lib (some fi) j) ≡ (r_done, k)
        → (k.wire
            ≡ (partial_answer t fi a stop (length content) j) ++ take (stop - a) (drop a content))
          × (length (take (stop - a) (drop a content)) ≡ stop - a)
    serve-cook_partial k h = (
      subst (Outcome content (partial_answer t fi a stop (length content) j) a stop j.range_to)
          (ap (serve t lib content es) (sym (cook-plain t lib fi j plain ∙ with_content-offered))
            ∙ h)
          (serve-Outcome content (partial_answer t fi a stop (length content) j) a stop j.range_to t
            lib es (offered t fi a stop (length content) (cleaned j)) v.ends v.inside truth
            offered-Sending),
      omega (arith, length-take (stop - a) (drop a content), length-drop a content, v.inside),
    )

    -- A request for the bytes from `a` to `stop - 1`, of a plain item whose length is known and which
    -- has the first of them, from a job that has sent nothing yet and wants the body, keeps the
    -- connection, and is for no maintenance task: if at each call of SendData the connection takes
    -- some bytes and the item is complete and gives some, it is done after as many calls as there are
    -- bytes to send, header and body.
    pub serve-cook_done :
        All (IsFair content) es
        → j.keep_alive ≡ keep
        → j.special ≡ false
        → length (partial_answer t fi a stop (length content) j) + (stop - a) ≤ length es
        → (serve t lib content es (cook_response_header t lib (some fi) j)).0 ≡ r_done
    unfolding append_meta_headers partial_head http_variant
    serve-cook_done fair kept plain_job enough =
        rw (cook-plain t lib fi j plain, with_content-offered)
          (serve-done content (partial_answer t fi a stop (length content) j) a stop j.range_to t
            lib es (offered t fi a stop (length content) (cleaned j)) v.ends v.inside truth fair
            offered-Sending kept plain_job v.nonempty enough)
