-- ===== src/Job/Delivered.antt =====
-- What becomes of a body in chunks that ProcessIncomming reads (src/dlcon.cc): all of it arrives, or
-- the item refuses a piece.
use apt_cacher_ng.Base.{
  ◌⊎◌, inl, inr, ℕ, suc, ◌+◌, ◌-◌, ◌*◌, ◌^◌, ◌<◌, ◌≤◌, ◌≡◌, refl, sym, ap, ◌∙◌, subst, Bool, true,
  false, some, List, [], ◌∷◌, ◌++◌, append_assoc, append-nil, arith, Bytes, All, length, codes,
  Option,
}
use apt_cacher_ng.Text.{crlf}
use apt_cacher_ng.ClientJob.Send.{print_hex, last_chunk}
use apt_cacher_ng.ClientJob.Chunked.{encode, join}
use apt_cacher_ng.Job.{Sink, Job, get_chunk_head, get_header, process_body, hint_done}
use apt_cacher_ng.Job.Chunks.{
  at, broken, lead, regroup, turns, turns-length, last_turns, chunk_turns, refused_turns,
}

module _ (K : Sink) (error : Bytes) where
  -- The item took all that the chunks hold, and was finished.
  abbrev pub Taken : Bytes → K.State → ℕ → Job K → Type 0
  Taken whole item r left =
      (last : K.State) × (r ≡ hint_done)
      × (left.item ≡ K.finish last)
      × (left.state ≡ get_header)
      × (left.buf ≡ [])
      × K.Valid last
      × (K.got last ≡ K.got item ++ whole)

  -- The item took the front, and refused a chunk behind it.
  abbrev pub Refused : Bytes → K.State → ℕ → Job K → Type 0
  Refused whole item r left =
      (front : Bytes) × (chunk : Bytes) × (back : Bytes) × (last : K.State) × (whole
        ≡ front ++ (chunk ++ back))
      × (r ≡ broken)
      × (left.error_msg ≡ codes "Cannot store")
      × (K.add chunk last ≡ (left.item, false))
      × K.Valid last
      × (K.got last ≡ K.got item ++ front)

  abbrev pub Read : Bytes → K.State → Option (ℕ × Job K) → Type 0
  Read whole item o =
      (r : ℕ) × (left : Job K) × (o ≡ some (r, left))
      × (Taken whole item r left ⊎ Refused whole item r left)

  Read-more :
      (c whole : Bytes) (item item' : K.State) (o : Option (ℕ × Job K))
      → K.got item' ≡ K.got item ++ c
      → Read whole item' o
      → Read (c ++ whole) item o
  Read-more c whole item item' o g (r, left, e, inl (last, d, f, st, b, v, h)) = (
    r,
    left,
    e,
    inl (last, d, f, st, b, v, h ∙ ap (λ s. s ++ whole) g ∙ append_assoc (K.got item) c whole),
  )
  Read-more c whole item item' o g (r, left, e, inr (front, chunk, back, last, w, d, m, a, v, h)) =
      (
        r,
        left,
        e,
        inr (
          c ++ front,
          chunk,
          back,
          last,
          ap (λ s. c ++ s) w ∙ sym (append_assoc c front (chunk ++ back)),
          d,
          m,
          a,
          v,
          h ∙ ap (λ s. s ++ front) g ∙ append_assoc (K.got item) c front,
        ),
      )

  -- Behind one chunk, given what becomes of the others.
  chunk-Read :
      (b : Bool) (n r x : ℕ) (c t whole : Bytes) (item : K.State)
      → length (x ∷ c) < 2 ^ 32
      → K.Valid item
      → ((item' : K.State)
          → K.Valid item'
          → Read whole item' (process_body K n (at K error get_chunk_head 0 t item')))
      → Read ((x ∷ c) ++ whole) item (
          process_body K (suc (suc n)) (
            at K error get_chunk_head r
              (lead b ++ (print_hex (length (x ∷ c)) ++ 13 ∷ 10 ∷ ((x ∷ c) ++ t)))
              item))
  chunk-Read b n r x c t whole item small v others = go (K.add (x ∷ c) item) refl
    where
      go :
          (a : K.State × Bool)
          → K.add (x ∷ c) item ≡ a
          → Read ((x ∷ c) ++ whole) item (
              process_body K (suc (suc n)) (
                at K error get_chunk_head r
                  (lead b ++ (print_hex (length (x ∷ c)) ++ 13 ∷ 10 ∷ ((x ∷ c) ++ t)))
                  item))
      go (item', false) refusal = (
        broken,
        _,
        refused_turns K error b n r x c t item item' small refusal,
        inr ([], x ∷ c, whole, item, refl, refl, refl, refusal, v, sym (append-nil (K.got item))),
      )
      go (item', true) added =
          let (v', g) = K.add-got (x ∷ c) item item' v added in
          subst (Read ((x ∷ c) ++ whole) item)
            (sym (chunk_turns K error b n r x c t item item' small added))
            (Read-more (x ∷ c) whole item item' _ g (others item' v'))

  reads :
      (m : ℕ) (cs : List Bytes) (b : Bool) (r : ℕ) (item : K.State)
      → All (λ c. (0 < length c) × (length c < 2 ^ 32)) cs
      → K.Valid item
      → Read (join cs) item (
          process_body K
            (turns m cs)
            (at K error get_chunk_head r (lead b ++ (encode cs ++ last_chunk)) item))
  reads m [] b r item h v = (
    hint_done,
    at K error get_header r [] (K.finish item),
    last_turns K error b m r item,
    inl (item, refl, refl, refl, refl, v, sym (append-nil (K.got item))),
  )
  reads m ([] ∷ cs) b r item h v = absurd (omega (arith, h.0.0))
  reads m ((x ∷ c) ∷ cs) b r item h v =
      subst
        (λ s. Read (join ((x ∷ c) ∷ cs)) item (
          process_body K (suc (suc (turns m cs))) (at K error get_chunk_head r (lead b ++ s) item)))
        (sym (regroup (print_hex (length (x ∷ c))) (x ∷ c) (encode cs) last_chunk))
        (chunk-Read b (turns m cs) r x c (crlf ++ (encode cs ++ last_chunk)) (join cs) item h.0.1 v
          (λ item' v'. reads m cs true 0 item' h.1 v'))

  -- What SendData writes for a response in chunks, ProcessIncomming reads, if no chunk is empty or of
  -- 2 ^ 32 bytes or more; twice as many passes as there are chunks, and three, are enough. Either all
  -- that the chunks hold arrives behind what the item has, the item is finished, and the buffer is
  -- used up; or the item refuses a chunk, has got all that stands in front of it, and the job breaks.
  pub process_body-encode :
      (cs : List Bytes) (n r : ℕ) (item : K.State)
      → All (λ c. (0 < length c) × (length c < 2 ^ 32)) cs
      → 2 * length cs + 3 ≤ n
      → K.Valid item
      → Read
          (join cs)
          item
          (process_body K n (at K error get_chunk_head r (encode cs ++ last_chunk) item))
  process_body-encode cs n r item h fuel v =
      let m = n - (2 * length cs + 3) in
      let enough : turns m cs ≡ n = turns-length m cs ∙ omega arith in
      subst
        (λ k.
          Read (join cs) item
            (process_body K k (at K error get_chunk_head r (encode cs ++ last_chunk) item)))
        enough (reads m cs false r item h v)
