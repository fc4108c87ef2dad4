-- ===== src/Buffer/Dump.antt =====
-- dumpall: what goes out and what stays is what there was.
use apt_cacher_ng.Base.{
  ℕ, zero, suc, ◌+◌, ◌-◌, ◌≤◌, ◌≡◌, inl, inr, Bool-cases, refl, ap, ◌∙◌, sym, Bool, true, ◌||◌,
  List, [], ◌∷◌, ◌++◌, append_assoc, arith, Bytes, ◌==◌, ltb, length, take, drop, length-append,
  length-take, length-drop, take-append-drop, ℤ, pos, negsuc, minus_one, ◌⊎◌,
}
use apt_cacher_ng.Buffer.{
  Buf, size, view, WriteResult, wrote, interrupted, failed, dump_loop, dumpall, dump_limit,
  drop_front,
}
use apt_cacher_ng.Buffer.Valid.{IsValid, size_lem, view_lem, le-length_mem}
use apt_cacher_ng.Buffer.Refine.{drop_front_lem}

-- What `dump_loop` leaves, from `out` and a buffer that showed `q`.
record Dumped (n : ℕ) (out q : Bytes) (m : Bytes × Buf × Bool) : Type 0 where
  pub valid : IsValid m.1
  pub parted : m.0 ++ view m.1 ≡ out ++ q
  pub complete : m.2 ≡ true → length m.0 ≡ length out + n

-- The size of a valid buffer is the length of what it shows.
size-view : (b : Buf) → IsValid b → length (view b) ≡ size b
size-view b v =
    ap length (view_lem v)
    ∙ omega (
      arith,
      length-drop b.r (take b.w b.mem),
      length-take b.w b.mem,
      le-length_mem v,
      size_lem v,
      v.ordered,
    )

size_left :
    (n k : ℕ) (b : Buf)
    → IsValid b
    → IsValid (drop_front k b)
    → suc n ≤ size b
    → view (drop_front k b) ≡ drop k (view b)
    → suc n - k ≤ size (drop_front k b)
size_left n k b v v' h shown =
    omega
      (arith, ap length shown, length-drop k (view b), size-view b v, size-view (drop_front k b) v')

dump_loop_lem :
    (rs : List WriteResult) (n : ℕ) (b : Buf) (out : Bytes)
    → IsValid b
    → n ≤ size b
    → Dumped n out (view b) (dump_loop rs n b out)
unfolding dump_loop
dump_loop_lem rs zero b out v h = record { valid = v; parted = refl; complete = λ _. omega arith }
dump_loop_lem [] (suc n) b out v h = record { valid = v; parted = refl; complete = λ e. cc }
dump_loop_lem (wrote k ∷ rs) (suc n) b out v h = elim (Bool-cases (k == 0 || ltb (suc n) k)) [
  | inl bad ↦ rw bad (record { valid = v; parted = refl; complete = λ e. cc })
  | inr good ↦
      let within : k ≤ suc n = ground arith in
      let (v', shown) = drop_front_lem k b v (omega arith) in
      let ih =
        dump_loop_lem rs (suc n - k) (drop_front k b) (out ++ take k (view b)) v'
          (size_left n k b v v' h shown) in
      rw good (record {
        valid = ih.valid;
        parted =
            ih.parted
            ∙ ap (λ q. (out ++ take k (view b)) ++ q) shown
            ∙ append_assoc out (take k (view b)) (drop k (view b))
            ∙ ap (λ q. out ++ q) (take-append-drop k (view b));
        complete = λ e.
            ih.complete e
            ∙ omega
                (arith, length-append out (take k (view b)), length-take k (view b), size-view b v);
      })
]
dump_loop_lem (interrupted ∷ rs) (suc n) b out v h = dump_loop_lem rs (suc n) b out v h
dump_loop_lem (failed ∷ rs) (suc n) b out v h = record {
  valid = v;
  parted = refl;
  complete = λ e. cc;
}

dump_limit-le : (limit : ℤ) (b : Buf) → dump_limit limit b ≤ size b
dump_limit-le (pos k) b = omega arith
dump_limit-le (negsuc k) b = omega arith

-- dumpall on a valid buffer: what went out, followed by what the buffer still shows, is what it
-- showed before, however the writes end; a result that is not -1 is the number of bytes that went
-- out, as many as were asked for, or all there were.
pub dumpall_parts :
    (rs : List WriteResult) (limit : ℤ) (b : Buf)
    → IsValid b
    → let (out, b', ret) = dumpall rs limit b in
      IsValid b'
      × (out ++ view b' ≡ view b)
      × ((ret ≡ minus_one) ⊎ ((ret ≡ pos (length out)) × (length out ≡ dump_limit limit b)))
unfolding dumpall
dumpall_parts rs limit b v =
    let d = dump_loop_lem rs (dump_limit limit b) b [] v (dump_limit-le limit b) in
    (
      d.valid,
      d.parted,
      elim (Bool-cases (dump_loop rs (dump_limit limit b) b []).2) [
        | inl all ↦
            rw all (inr (ap pos (sym (d.complete all ∙ omega arith)), d.complete all ∙ omega arith))
        | inr some_left ↦ rw some_left (inl refl)
      ],
    )
