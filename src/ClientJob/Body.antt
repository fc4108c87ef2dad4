-- ===== src/ClientJob/Body.antt =====
-- What the calls of SendData send behind a header, from a file of known content.
use apt_cacher_ng.Base.{
  ℕ, zero, suc, ◌+◌, ◌-◌, ◌≤◌, ◌<◌, ◌≡◌, ◌⊎◌, inl, inr, refl, ap, ◌∙◌, sym, subst, Bool, true,
  false, Bool-cases, Option, none, some, List, [], ◌∷◌, ◌++◌, append-nil, append_assoc, arith,
  Bytes, All, if◌then◌else◌, ◌==◌, leb, length, take, drop, null, min, length-take, length-drop,
  take-append-drop, ℤ, pos, negsuc, lt_ℤ, le_ℤ, eq_ℤ, ◌+ℤ◌, ◌-ℤ◌, ◌&&◌, ◌||◌, not,
}
use apt_cacher_ng.Buffer.Memory.{drop-drop}
use apt_cacher_ng.Http.{Dates}
use apt_cacher_ng.FileItem.{
  FiStatus, fresh, inited, dl_pending, dl_got_head, dl_receiving, dl_error, dl_stop, rank, complete,
}
use apt_cacher_ng.ClientJob.{
  ClientJob, Served, Texts, send_data, JobResult, r_done, r_again, r_discon, handle_sudden_error,
  KeepAlive, disco_asap,
}
use apt_cacher_ng.ClientJob.Send.{
  SendEnv, SockResult, sent, would_block, sock_error, return_stream_ok, await_sendable,
  item_send_data, send_limit, data_sent, on_send_data, by_activity, after_flush, send_data_call,
  serve, sent_body, stream_ok, to_size, awaited, dispatch, after_wait, awaited_of, flushed,
  unless_again,
}

pub take-append-take :
    (m n p : ℕ) (xs : Bytes) → p ≡ m + n → take m xs ++ take n (drop m xs) ≡ take p xs
take-append-take zero n p xs h = ap (λ i. take i xs) (omega arith)
take-append-take (suc m) n zero xs h = absurd (omega arith)
take-append-take (suc m) zero (suc p) [] h = refl
take-append-take (suc m) (suc n) (suc p) [] h = refl
take-append-take (suc m) n (suc p) (x ∷ xs) h = ap (◌∷◌ x) (take-append-take m n p xs (omega arith))

take-length-take : (n : ℕ) (xs : Bytes) → take (length (take n xs)) xs ≡ take n xs
take-length-take zero xs = refl
take-length-take (suc n) [] = refl
take-length-take (suc n) (x ∷ xs) = ap (◌∷◌ x) (take-length-take n xs)

-- The slice from `a` to `b` grows by what is read from `b` on.
pub slice-append :
    (a b n : ℕ) (xs : Bytes)
    → a ≤ b
    → let bs = take n (drop b xs) in
      take (b - a) (drop a xs) ++ bs ≡ take (b + length bs - a) (drop a xs)
slice-append a b n xs h =
    ap (λ ys. take (b - a) (drop a xs) ++ ys)
      (sym (take-length-take n (drop b xs))
        ∙ ap (take (length (take n (drop b xs)))) (sym (drop-drop (b - a) a b xs (omega arith))))
    ∙ take-append-take (b - a) (length (take n (drop b xs))) (b + length (take n (drop b xs)) - a)
        (drop a xs) (omega arith)

-- A flush that leaves nothing of a text has sent something.
pub some_out : (k : ℕ) (s : Bytes) → null s ≡ false → null (drop k s) ≡ true → 0 < length (take k s)
some_out zero s full all = cc
some_out (suc k) [] full all = cc
some_out (suc k) (c ∷ s) full all = omega arith

-- An item that is complete has all of the content.
abbrev pub Whole : Bytes → FiStatus → ℤ → Type 0
Whole content complete size = size ≡ pos (length content)
Whole content _ size = Unit

abbrev pub Truthful : Bytes → SendEnv → Type 0
Truthful content e = All (λ (st, size). Whole content st size) e.seen

pub whole :
    (content : Bytes) (st : FiStatus) (size : ℤ)
    → Whole content st size
    → rank st ≡ 5
    → size ≡ pos (length content)
whole content complete size h e = h
whole content fresh size h e = absurd (omega arith)
whole content inited size h e = absurd (omega arith)
whole content dl_pending size h e = absurd (omega arith)
whole content dl_got_head size h e = absurd (omega arith)
whole content dl_receiving size h e = absurd (omega arith)
whole content dl_error size h e = absurd (omega arith)
whole content dl_stop size h e = absurd (omega arith)

-- Where the response has to end: behind the last byte asked for, or with the content.
abbrev pub Stops : Bytes → ℕ → ℤ → Type 0
Stops content stop (pos b) = stop ≡ b + 1
Stops content stop (negsuc b) = stop ≡ length content

-- The test behind fi->SendData finds the end.
reached :
    (content : Bytes) (stop : ℕ) (to : ℤ) (st : FiStatus) (size : ℤ) (send_pos : ℕ)
    → Stops content stop to
    → stop ≤ length content
    → (rank st ≡ 5 → size ≡ pos (length content))
    → (rank st == rank complete && eq_ℤ (pos send_pos) size)
        || (le_ℤ (pos 0) to && le_ℤ (to +ℤ pos 1) (pos send_pos))
      ≡ true
    → stop ≤ send_pos
unfolding ◌+ℤ◌
reached content stop (pos b) st size send_pos ends inside truth h = ground arith
reached content stop (negsuc b) st size send_pos ends inside truth h = ground arith

-- `send_limit` leads no further than the end.
limited :
    (content : Bytes) (stop : ℕ) (to : ℤ) (size : ℤ) (j : ClientJob)
    → Stops content stop to
    → j.range_to ≡ to
    → le_ℤ (send_limit j size) (pos 0) ≡ false
    → j.send_pos ≤ stop
    → j.send_pos + min (to_size (send_limit j size)) (length content - j.send_pos) ≤ stop
unfolding send_limit ◌+ℤ◌ ◌-ℤ◌
limited content stop (pos b) (pos n) j ends wanted h inside = rw wanted (ground arith)
limited content stop (pos b) (negsuc n) j ends wanted h inside = rw wanted (ground arith)
limited content stop (negsuc b) size j ends wanted h inside = omega arith

-- What fi->SendData sends is read at the send position.
pub item_send_data-cases :
    (m : Option ℕ) (open_file : Bool) (content : Bytes) (send_pos limit : ℕ)
    → (item_send_data m open_file content send_pos limit ≡ none)
      ⊎ ((n : ℕ) × (n ≤ limit)
          × (item_send_data m open_file content send_pos limit
              ≡ some (take n (drop send_pos content))))
unfolding item_send_data
item_send_data-cases none open_file content send_pos limit = inl refl
item_send_data-cases (some k) true content send_pos limit = inr (min k limit, omega arith, refl)
item_send_data-cases (some k) false content send_pos limit = inl refl

-- What a wait ends with is a state that was seen, and no error.
pub await_sendable-All :
    (send_pos : ℕ) (head_only : Bool) (seen : List (FiStatus × ℤ)) (P : FiStatus × ℤ → Type 0)
    (st : FiStatus) (size : ℤ)
    → All P seen
    → await_sendable send_pos head_only seen ≡ some (st, size)
    → P (st, size)
unfolding await_sendable
await_sendable-All send_pos head_only [] P st size h e = cc
await_sendable-All send_pos head_only ((st', size') ∷ seen) P st size h e =
    elim (Bool-cases (leb (rank complete) (rank st'))) [
      | inl final ↦ elim (Bool-cases (leb (rank st') (rank complete))) [
        | inl good ↦ subst P (ground arith) (h.0)
        | inr bad ↦ absurd (ground arith)
      ]
      | inr unfinished ↦
          elim (Bool-cases (lt_ℤ (pos send_pos) size' || (head_only && leb 3 (rank st')))) [
            | inl ready ↦ subst P (ground arith) (h.0)
            | inr not_yet ↦ await_sendable-All send_pos head_only seen P st size h.1 (ground arith)
          ]
    ]

module _ (content head : Bytes) (from stop : ℕ) (to : ℤ) where
  -- What went out and what waits to go out are the header and the content from `from` on.
  pub record Told (j : ClientJob) : Type 0 where
    pub begun : from ≤ j.send_pos
    pub within : j.send_pos ≤ stop
    pub told : j.wire ++ j.sendbuf ≡ head ++ take (j.send_pos - from) (drop from content)

  pub record Sending (j : ClientJob) : Type 0 where
    pub sends : j.activity ≡ send_data
    pub has_body : j.is_head_only ≡ false
    pub wanted : j.range_to ≡ to
    pub telling : Told j
    pub counted : null j.sendbuf ≡ true → 0 < j.all_data_count

  abbrev pub Outcome : JobResult × ClientJob → Type 0
  Outcome (r_again, j) = Sending j
  Outcome (r_done, j) = j.wire ≡ head ++ take (stop - from) (drop from content)
  Outcome (r_discon, j) = Told j

  opened-Told : (b : Bool) {j : ClientJob} → Told j → Told (record j { file_open = b })
  opened-Told b v = record { begun = v.begun; within = v.within; told = v.told }

  null-nil : (s : Bytes) → null s ≡ true → s ≡ []
  null-nil [] h = refl
  null-nil (c ∷ s) h = cc

  sent_body-Told :
      (n : ℕ) (j : ClientJob)
      → Told j
      → null j.sendbuf ≡ true
      → j.send_pos + length (take n (drop j.send_pos content)) ≤ stop
      → Told (sent_body (take n (drop j.send_pos content)) j)
  sent_body-Told n j v empty h =
      let bs = take n (drop j.send_pos content) in
      let none_left = null-nil j.sendbuf empty in
      record {
        begun = omega (arith, v.begun);
        within = h;
        told =
            rw (none_left, append-nil (j.wire ++ bs))
              (ap (λ w. w ++ bs)
                  (sym (append-nil j.wire) ∙ ap (λ b. j.wire ++ b) (sym none_left) ∙ v.told)
                ∙ append_assoc head (take (j.send_pos - from) (drop from content)) bs
                ∙ ap (λ ys. head ++ ys) (slice-append from j.send_pos n content v.begun));
      }

  closed : {j : ClientJob} → Told j → Told (record j { activity = disco_asap })
  closed v = record { begun = v.begun; within = v.within; told = v.told }

  -- The end of the response.
  stream_ok-Outcome :
      (k : KeepAlive) (j : ClientJob)
      → Told j
      → j.wire ≡ head ++ take (stop - from) (drop from content)
      → Outcome (stream_ok k j)
  unfolding stream_ok
  stream_ok-Outcome KeepAlive.keep j v told = told
  stream_ok-Outcome KeepAlive.close j v told = closed v
  stream_ok-Outcome KeepAlive.unspecified j v told = elim (Bool-cases j.is_http11) [
    | inl modern ↦ rw modern told
    | inr old ↦ rw old (record { begun = v.begun; within = v.within; told = v.told })
  ]

  finished :
      (j : ClientJob)
      → Told j
      → null j.sendbuf ≡ true
      → stop ≤ j.send_pos
      → Outcome (return_stream_ok j)
  unfolding return_stream_ok
  finished j v empty h = stream_ok-Outcome j.keep_alive j v (
      sym (append-nil j.wire)
      ∙ ap (λ b. j.wire ++ b) (sym (null-nil j.sendbuf empty))
      ∙ v.told
      ∙ ap (λ n. head ++ take n (drop from content)) (omega (arith, v.within)))

  data_sent-Outcome :
      (st : FiStatus) (size : ℤ) (j : ClientJob)
      → Stops content stop to
      → stop ≤ length content
      → (rank st ≡ 5 → size ≡ pos (length content))
      → null j.sendbuf ≡ true
      → Sending j
      → Outcome (data_sent st size j)
  unfolding data_sent
  data_sent-Outcome st size j ends inside truth empty v =
      elim (Bool-cases (
        (rank st == rank complete && eq_ℤ (pos j.send_pos) size)
        || (le_ℤ (pos 0) j.range_to && le_ℤ (j.range_to +ℤ pos 1) (pos j.send_pos)))) [
          | inl over ↦ rw over (
              finished j v.telling empty (
                reached content stop j.range_to st size j.send_pos
                  (subst (Stops content stop) (sym v.wanted) ends) inside truth over))
          | inr more ↦ rw more v
        ]

  on_send_data-Outcome :
      (e : SendEnv) (st : FiStatus) (size : ℤ) (j : ClientJob)
      → Stops content stop to
      → stop ≤ length content
      → (rank st ≡ 5 → size ≡ pos (length content))
      → null j.sendbuf ≡ true
      → Sending j
      → Outcome (on_send_data content e st size j)
  unfolding on_send_data
  on_send_data-Outcome e st size j ends inside truth empty v =
      elim (Bool-cases (le_ℤ (send_limit j size) (pos 0))) [
        | inl stuck ↦ rw stuck (opened-Told (j.file_open || e.opens) v.telling)
        | inr more ↦
            elim (item_send_data-cases e.moved (j.file_open || e.opens) content j.send_pos
              (to_size (send_limit j size))) [
                | inl failed ↦
                    rw (more, failed) (closed (opened-Told (j.file_open || e.opens) v.telling))
                | inr (n, le, done) ↦
                    rw (more, done)
                      (data_sent-Outcome st size _ ends inside truth empty (record {
                        sends = v.sends;
                        has_body = v.has_body;
                        wanted = v.wanted;
                        telling =
                            sent_body-Told n (record j { file_open = j.file_open || e.opens })
                              (opened-Told (j.file_open || e.opens) v.telling) empty
                              (omega (
                                arith,
                                limited content stop to size j ends v.wanted more v.telling.within,
                                length-take n (drop j.send_pos content),
                                length-drop j.send_pos content,
                              ));
                        counted = λ still. omega (arith, v.counted empty);
                      }))
              ]
      ]

  nonzero : (j : ClientJob) → 0 < j.all_data_count → (j.all_data_count == 0) ≡ false
  nonzero j h = ground arith

  handle_sudden_error-Outcome :
      (t : Texts) (served : Option Served) (j : ClientJob)
      → Told j
      → 0 < j.all_data_count
      → Outcome (handle_sudden_error t served j)
  unfolding handle_sudden_error
  handle_sudden_error-Outcome t none j v h =
      rw (nonzero j h) (record { begun = v.begun; within = v.within; told = v.told })
  handle_sudden_error-Outcome t (some fi) j v h =
      rw (nonzero j h) (record { begun = v.begun; within = v.within; told = v.told })

  pub flushed-Sending : (k : ℕ) (j : ClientJob) → Sending j → Sending (flushed k j)
  flushed-Sending k j v = record {
    sends = v.sends;
    has_body = v.has_body;
    wanted = v.wanted;
    telling = record {
      begun = v.telling.begun;
      within = v.telling.within;
      told =
          append_assoc j.wire (take k j.sendbuf) (drop k j.sendbuf)
          ∙ ap (λ s. j.wire ++ s) (take-append-drop k j.sendbuf)
          ∙ v.telling.told;
    };
    counted = λ all. elim (Bool-cases (null j.sendbuf)) [
      | inl empty ↦ omega (arith, v.counted empty)
      | inr full ↦ omega (arith, some_out k j.sendbuf full all)
    ];
  }

  module _ (t : Texts) (lib : Dates) (e : SendEnv) (ends : Stops content stop to)
      (inside : stop ≤ length content) (truth : Truthful content e) where
    after_wait-Outcome :
        (j : ClientJob) (o : Option (FiStatus × ℤ))
        → awaited e j ≡ o
        → null j.sendbuf ≡ true
        → Sending j
        → Outcome (after_wait t o e j (λ st size. on_send_data content e st size j))
    after_wait-Outcome j none seen empty v =
        handle_sudden_error-Outcome t e.served j v.telling (v.counted empty)
    after_wait-Outcome j (some (st, size)) seen empty v =
        on_send_data-Outcome e st size j ends inside (truthful e.served seen) empty v
      where
        truthful :
            (o : Option Served)
            → awaited_of o e.seen j ≡ some (st, size)
            → rank st ≡ 5
            → size ≡ pos (length content)
        truthful none h = cc
        truthful (some fi) h = whole content st size (
            await_sendable-All j.send_pos j.is_head_only e.seen (λ (a, b). Whole content a b) st
              size truth h)

    by_activity-Outcome :
        (j : ClientJob)
        → null j.sendbuf ≡ true
        → Sending j
        → Outcome (by_activity t lib content e j)
    unfolding by_activity dispatch
    by_activity-Outcome j empty v =
        subst (λ a. Outcome (dispatch a t lib content e j)) (sym v.sends)
          (subst
            (λ b. Outcome (
              if b
              then return_stream_ok j
              else after_wait t (awaited e j) e j (λ st size. on_send_data content e st size j)))
            (sym v.has_body) (after_wait-Outcome j (awaited e j) refl empty v))

    after_flush-Outcome :
        (s : SockResult) (j : ClientJob) → Sending j → Outcome (after_flush t lib content e s j)
    unfolding after_flush
    after_flush-Outcome would_block j v = v
    after_flush-Outcome sock_error j v = closed v.telling
    after_flush-Outcome (sent k) j v = elim (Bool-cases (null (drop k j.sendbuf))) [
      | inl all ↦ rw all (by_activity-Outcome (flushed k j) all (flushed-Sending k j v))
      | inr rest ↦ rw rest (flushed-Sending k j v)
    ]

    pub send_data_call-Outcome :
        (j : ClientJob) → Sending j → Outcome (send_data_call t lib content e j)
    unfolding send_data_call
    send_data_call-Outcome j v = elim (Bool-cases (not e.connected || j.special)) [
      | inl away ↦ rw away (closed v.telling)
      | inr here ↦ elim (Bool-cases (null j.sendbuf)) [
        | inl empty ↦ rw (here, empty) (by_activity-Outcome j empty v)
        | inr full ↦ rw (here, full) (after_flush-Outcome e.sock j v)
      ]
    ]

  unless_again-Outcome :
      (m : JobResult × ClientJob) (go : ClientJob → JobResult × ClientJob)
      → Outcome m
      → ((j : ClientJob) → Sending j → Outcome (go j))
      → Outcome (unless_again m go)
  unless_again-Outcome (r_again, j) go v next = next j v
  unless_again-Outcome (r_done, j) go v next = v
  unless_again-Outcome (r_discon, j) go v next = v

  pub serve-Outcome :
      (t : Texts) (lib : Dates) (es : List SendEnv) (j : ClientJob)
      → Stops content stop to
      → stop ≤ length content
      → All (Truthful content) es
      → Sending j
      → Outcome (serve t lib content es j)
  unfolding serve
  serve-Outcome t lib [] j ends inside truth v = v
  serve-Outcome t lib (e ∷ es) j ends inside truth v =
      unless_again-Outcome (send_data_call t lib content e j) (λ j'. serve t lib content es j')
        (send_data_call-Outcome t lib e ends inside truth.0 j v)
        (λ j' v'. serve-Outcome t lib es j' ends inside truth.1 v')
