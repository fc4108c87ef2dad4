-- ===== src/ClientJob/Progress.antt =====
-- The response comes to its end: calls of SendData that can send something do not go on for ever.
use apt_cacher_ng.Base.{
  ℕ, suc, ◌+◌, ◌-◌, ◌≤◌, ◌<◌, ◌≡◌, inl, inr, refl, ap, ◌∙◌, sym, subst, Bool, true, false,
  Bool-cases, some, List, [], ◌∷◌, arith, Bytes, All, length, take, drop, null, min, length-take,
  length-drop, ℤ, pos, negsuc, le_ℤ, eq_ℤ, ◌+ℤ◌, ◌-ℤ◌, ◌&&◌, ◌||◌, ◌==◌, not, if◌then◌else◌,
}
use apt_cacher_ng.Http.{Dates}
use apt_cacher_ng.FileItem.{FiStatus, rank, complete}
use apt_cacher_ng.ClientJob.{ClientJob, Served, Texts, keep, JobResult, r_done, r_again, r_discon}
use apt_cacher_ng.ClientJob.Send.{
  SendEnv, sent, return_stream_ok, stream_ok, await_sendable, item_send_data, send_limit, data_sent,
  on_send_data, by_activity, dispatch, after_flush, send_data_call, serve, sent_body, to_size,
  flushed, unless_again, after_wait, awaited,
}
use apt_cacher_ng.ClientJob.Body.{
  Stops, Truthful, Sending, Outcome, send_data_call-Outcome, flushed-Sending,
}

-- A call at which the connection takes something, and the item, complete, gives something.
pub record IsFair (content : Bytes) (e : SendEnv) : Type 0 where
  pub connected : e.connected ≡ true
  pub sends : (k : ℕ) × (e.sock ≡ sent (suc k))
  pub present : (fi : Served) × (e.served ≡ some fi)
  pub sees : (more : List (FiStatus × ℤ)) × (e.seen ≡ (complete, pos (length content)) ∷ more)
  pub opens : e.opens ≡ true
  pub moves : (k : ℕ) × (e.moved ≡ some (suc k))

not_null : (s : Bytes) → null s ≡ false → 0 < length s
not_null [] h = cc
not_null (c ∷ s) h = omega arith

-- At the end the test for it holds.
at_end :
    (content : Bytes) (stop : ℕ) (to : ℤ) (send_pos : ℕ)
    → Stops content stop to
    → send_pos ≡ stop
    → (rank complete == rank complete && eq_ℤ (pos send_pos) (pos (length content)))
        || (le_ℤ (pos 0) to && le_ℤ (to +ℤ pos 1) (pos send_pos))
      ≡ true
unfolding ◌+ℤ◌
at_end content stop (pos b) send_pos ends h = ground arith
at_end content stop (negsuc b) send_pos ends h = ground arith

-- Before the end something may be sent, and no more than is left.
may_send :
    (content : Bytes) (stop : ℕ) (to : ℤ) (j : ClientJob)
    → Stops content stop to
    → j.range_to ≡ to
    → stop ≤ length content
    → j.send_pos < stop
    → send_limit j (pos (length content)) ≡ pos (stop - j.send_pos)
unfolding send_limit ◌+ℤ◌ ◌-ℤ◌
may_send content stop (pos b) j ends wanted inside h = rw wanted (ground arith)
may_send content stop (negsuc b) j ends wanted inside h = rw wanted (ground arith)

module _ (content head : Bytes) (from stop : ℕ) (to : ℤ) where
  -- How a job goes on: done, or further by one byte at least.
  abbrev Advanced : ClientJob → JobResult × ClientJob → Type 0
  Advanced j (r_done, k) = Unit {0}
  Advanced j (r_discon, k) = ⊥
  Advanced j (r_again, k) =
      (length k.sendbuf + (stop - k.send_pos) < length j.sendbuf + (stop - j.send_pos))
      × (k.send_pos < stop)
      × (k.special ≡ j.special)
      × (k.keep_alive ≡ j.keep_alive)

  not_at_end :
      (k : ClientJob)
      → Stops content stop k.range_to
      → k.send_pos ≤ stop
      → (rank complete == rank complete && eq_ℤ (pos k.send_pos) (pos (length content)))
          || (le_ℤ (pos 0) k.range_to && le_ℤ (k.range_to +ℤ pos 1) (pos k.send_pos))
        ≡ false
      → k.send_pos < stop
  not_at_end k ends inside more = ground (arith, at_end content stop k.range_to k.send_pos ends)

  data_sent-Advanced :
      (j k : ClientJob)
      → Stops content stop to
      → k.range_to ≡ to
      → k.keep_alive ≡ keep
      → j.send_pos < k.send_pos
      → k.send_pos ≤ stop
      → k.sendbuf ≡ j.sendbuf
      → k.special ≡ j.special
      → k.keep_alive ≡ j.keep_alive
      → Advanced j (data_sent complete (pos (length content)) k)
  unfolding data_sent return_stream_ok stream_ok
  data_sent-Advanced j k ends wanted kept further inside same sp ka =
      elim (Bool-cases (
        (rank complete == rank complete && eq_ℤ (pos k.send_pos) (pos (length content)))
        || (le_ℤ (pos 0) k.range_to && le_ℤ (k.range_to +ℤ pos 1) (pos k.send_pos)))) [
          | inl over ↦ rw over (subst (λ a. Advanced j (stream_ok a k)) (sym kept) tt)
          | inr more ↦
              let before : k.send_pos < stop =
                not_at_end k (subst (Stops content stop) (sym wanted) ends) inside more in
              rw more (omega (arith, ap length same), before, sp, ka)
        ]

  module _ (e : SendEnv) (fair : IsFair content e) (ends : Stops content stop to)
      (inside : stop ≤ length content) where
    on_send_data-Advanced :
        (j : ClientJob)
        → Sending content head from stop to j
        → j.keep_alive ≡ keep
        → j.send_pos < stop
        → Advanced j (on_send_data content e complete (pos (length content)) j)
    unfolding on_send_data item_send_data
    on_send_data-Advanced j v kept before =
        let limit = may_send content stop to j ends v.wanted inside before in
        let some_left : le_ℤ (send_limit j (pos (length content))) (pos 0) ≡ false =
          rw limit (ground arith) in
        let (k, moves) = fair.moves in
        let bs = take (min (suc k) (stop - j.send_pos)) (drop j.send_pos content) in
        let read : item_send_data e.moved (j.file_open || e.opens) content j.send_pos
              (to_size (send_limit j (pos (length content))))
            ≡ some bs =
          rw (moves, fair.opens, limit) (item_lem k (stop - j.send_pos) j.file_open) in
        let count = length-take (min (suc k) (stop - j.send_pos)) (drop j.send_pos content) in
        rw (some_left, read)
          (data_sent-Advanced j (sent_body bs (record j { file_open = j.file_open || e.opens }))
            ends v.wanted kept (omega (arith, count, length-drop j.send_pos content))
            (omega (arith, count, length-drop j.send_pos content)) refl refl refl)
      where
        item_lem :
            (k limit : ℕ) (b : Bool)
            → item_send_data (some (suc k)) (b || true) content j.send_pos limit
              ≡ some (take (min (suc k) limit) (drop j.send_pos content))
        item_lem k limit true = refl
        item_lem k limit false = refl

    by_activity-Advanced :
        (t : Texts) (lib : Dates) (j : ClientJob)
        → Sending content head from stop to j
        → j.keep_alive ≡ keep
        → j.send_pos < stop
        → Advanced j (by_activity t lib content e j)
    unfolding by_activity dispatch await_sendable
    by_activity-Advanced t lib j v kept before =
        let (fi, present) = fair.present in
        let (more, sees) = fair.sees in
        let seen : awaited e j ≡ some (complete, pos (length content)) = rw (present, sees) refl in
        subst (λ a. Advanced j (dispatch a t lib content e j)) (sym v.sends)
          (subst
            (λ b. Advanced j (
              if b
              then return_stream_ok j
              else after_wait t (awaited e j) e j (λ st size. on_send_data content e st size j)))
            (sym v.has_body)
            (subst
              (λ o. Advanced j (after_wait t o e j (λ st size. on_send_data content e st size j)))
              (sym seen) (on_send_data-Advanced j v kept before)))

    -- What is left to send, over two steps of one call.
    through :
        (i j : ClientJob) (m : JobResult × ClientJob)
        → Advanced j m
        → length j.sendbuf + (stop - j.send_pos) ≤ length i.sendbuf + (stop - i.send_pos)
        → j.special ≡ i.special
        → j.keep_alive ≡ i.keep_alive
        → Advanced i m
    through i j (r_done, k) h le sp ka = tt
    through i j (r_discon, k) h le sp ka = h
    through i j (r_again, k) (less, before, sp', ka') le sp ka =
        (omega arith, before, sp' ∙ sp, ka' ∙ ka)

    after_flush-Advanced :
        (t : Texts) (lib : Dates) (k : ℕ) (j : ClientJob)
        → Sending content head from stop to j
        → j.keep_alive ≡ keep
        → j.send_pos < stop
        → null j.sendbuf ≡ false
        → Advanced j (after_flush t lib content e (sent (suc k)) j)
    unfolding after_flush
    after_flush-Advanced t lib k j v kept before full =
        let shorter = length-drop (suc k) j.sendbuf in
        elim (Bool-cases (null (drop (suc k) j.sendbuf))) [
          | inl all ↦ rw all (
              through j (flushed (suc k) j) _
                (by_activity-Advanced t lib (flushed (suc k) j)
                  (flushed-Sending content head from stop to (suc k) j v) kept before)
                (omega arith) refl refl)
          | inr rest ↦ rw rest (omega (arith, not_null j.sendbuf full), before, refl, refl)
        ]

    send_data_call-Advanced :
        (t : Texts) (lib : Dates) (j : ClientJob)
        → Sending content head from stop to j
        → j.keep_alive ≡ keep
        → j.special ≡ false
        → j.send_pos < stop
        → Advanced j (send_data_call t lib content e j)
    unfolding send_data_call
    send_data_call-Advanced t lib j v kept plain before =
        let here : not e.connected || j.special ≡ false = rw (fair.connected, plain) refl in
        let (k, sends) = fair.sends in
        elim (Bool-cases (null j.sendbuf)) [
          | inl empty ↦ rw (here, empty) (by_activity-Advanced t lib j v kept before)
          | inr full ↦
              rw (here, full)
                (subst (λ s. Advanced j (after_flush t lib content e s j)) (sym sends)
                  (after_flush-Advanced t lib k j v kept before full))
        ]

  onward :
      (j : ClientJob) (m : JobResult × ClientJob) (go : ClientJob → JobResult × ClientJob)
      → Advanced j m
      → Outcome content head from stop to m
      → ((k : ClientJob)
          → length k.sendbuf + (stop - k.send_pos) < length j.sendbuf + (stop - j.send_pos)
          → k.send_pos < stop
          → k.special ≡ j.special
          → k.keep_alive ≡ j.keep_alive
          → Sending content head from stop to k
          → (go k).0 ≡ r_done)
      → (unless_again m go).0 ≡ r_done
  onward j (r_done, k) go h o next = refl
  onward j (r_discon, k) go h o next = elim h [ ]
  onward j (r_again, k) go (less, before, sp, ka) o next = next k less before sp ka o

  -- Fair calls, as many as there are bytes left to send, bring the job to its end.
  pub serve-done :
      (t : Texts) (lib : Dates) (es : List SendEnv) (j : ClientJob)
      → Stops content stop to
      → stop ≤ length content
      → All (Truthful content) es
      → All (IsFair content) es
      → Sending content head from stop to j
      → j.keep_alive ≡ keep
      → j.special ≡ false
      → j.send_pos < stop
      → length j.sendbuf + (stop - j.send_pos) ≤ length es
      → (serve t lib content es j).0 ≡ r_done
  unfolding serve
  serve-done t lib [] j ends inside truth fair v kept plain before enough = absurd (omega arith)
  serve-done t lib (e ∷ es) j ends inside truth fair v kept plain before enough =
      onward j (send_data_call t lib content e j) (λ j'. serve t lib content es j')
        (send_data_call-Advanced e fair.0 ends inside t lib j v kept plain before)
        (send_data_call-Outcome content head from stop to t lib e ends inside truth.0 j v)
        (λ k less before' sp ka w.
          serve-done t lib es k ends inside truth.1 fair.1 w (ka ∙ kept) (sp ∙ plain) before'
            (omega arith))
