-- ===== src/Buffer/Refine.antt =====
-- A valid buffer behaves as the queue of the bytes between its positions.
use apt_cacher_ng.Base.{
  ℕ, ◌+◌, ◌-◌, ◌*◌, ◌^◌, ◌≤◌, ◌<◌, ◌≡◌, inl, inr, Bool-cases, refl, ap, ◌∙◌, sym, Option, some,
  List, [], ◌∷◌, ◌++◌, arith, Bytes, ◌==◌, min, length, take, drop, length-take, length-drop,
  take_all, ==_iff, Option-cases, subst,
}
use apt_cacher_ng.Buffer.{
  Buf, size, freecapa, erase, drop_front, move, view, reserve_atleast, add, sysread, poke, got,
  bytes,
}
use apt_cacher_ng.Buffer.Memory.{
  take-append_front, take-take, drop-append_front, drop-drop, length-poke, take-poke_self, drop_all,
}
use apt_cacher_ng.Buffer.Valid.{
  IsValid, front, size_lem, freecapa_lem, view_lem, le-length_mem, reserve_atleast_lem,
}

-- The calls of a client. What a read brings is given.
pub data Op : Type 0 where
  append : Option (ℕ → ℕ) → Bytes → Op
  discard : ℕ → Op
  cut : ℕ → Op
  tidy : Op
  receive : ℕ → Bytes → Op

unfoldable pub call : Op → Buf → Option Buf
unfolding drop_front erase move sysread
call (append alloc s) b = add alloc s b
call (discard n) b = some (drop_front n b)
call (cut n) b = some (erase n b)
call tidy b = some (move b)
call (receive maxlen s) b = some (sysread maxlen (bytes s) b).0

-- The same calls on a queue.
unfoldable pub effect : Op → Bytes → Bytes
effect (append alloc s) q = q ++ s
effect (discard n) q = drop n q
effect (cut n) q = take n q
effect tidy q = q
effect (receive maxlen s) q = q ++ s

-- What a caller may ask for: positions within the data, a total that twice fits in 32 bits, and a
-- read that brings no more than it was asked for.
abbrev pub Allowed : Op → Buf → Type 0
Allowed (append alloc s) b = 2 * (b.w + length s) + 1 < 2 ^ 32
Allowed (discard n) b = n ≤ size b
Allowed (cut n) b = n ≤ size b
Allowed tidy b = Unit
Allowed (receive maxlen s) b = length s ≤ min maxlen (freecapa b)

pub data Runs : List Op → Buf → Buf → Type 0 where
  done : {b : Buf} → Runs [] b b
  step :
      {op : Op} {ops : List Op} {b c d : Buf}
      → Allowed op b
      → call op b ≡ some c
      → Runs ops c d
      → Runs (op ∷ ops) b d

pub replay : List Op → Bytes → Bytes
replay [] q = q
replay (op ∷ ops) q = replay ops (effect op q)

abbrev Grows : Bytes → Buf → Buf → Type 0
Grows s b b' = IsValid b' × (view b' ≡ view b ++ s)

-- Bytes written behind the data of a buffer that has room for them.
stored_lem :
    (s : Bytes) (b : Buf)
    → IsValid b
    → b.w + length s ≤ b.capacity
    → Grows s b (record b { mem = poke b.w s b.mem; w = b.w + length s })
stored_lem s b v h = (v', view_lem v' ∙ shown ∙ ap (λ q. q ++ s) (sym (view_lem v)))
  where
    v' : IsValid (record b { mem = poke b.w s b.mem; w = b.w + length s })
    v' = record {
      ordered = omega (arith, v.ordered);
      within = h;
      small = v.small;
      allocated = elim v.allocated [
        | inl e ↦ inl e
        | inr e ↦ inr (length-poke b.w s b.mem (omega arith) ∙ e)
      ];
    }

    shown : drop b.r (take (b.w + length s) (poke b.w s b.mem)) ≡ drop b.r (front b) ++ s
    shown =
        ap (drop b.r) (take-poke_self b.w s b.mem (le-length_mem v))
        ∙ drop-append_front b.r (front b) s
            (omega (arith, length-take b.w b.mem, le-length_mem v, v.ordered))

view_same :
    (b b' : Buf) → IsValid b → IsValid b' → b'.r ≡ b.r → front b' ≡ front b → view b' ≡ view b
view_same b b' v v' e f = view_lem v' ∙ rw (e, f) (sym (view_lem v))

add_lem :
    (alloc : Option (ℕ → ℕ)) (s : Bytes) (b b' : Buf)
    → IsValid b
    → Allowed (append alloc s) b
    → add alloc s b ≡ some b'
    → Grows s b b'
unfolding add got
add_lem alloc s b b' v h e = elim (Option-cases (reserve_atleast alloc (length s) b)) [
  | inl refused ↦ ground arith
  | inr (c, made) ↦
      let (vc, er, ew, room, f) = reserve_atleast_lem alloc (length s) b c v h made in
      let (vd, shown) = stored_lem s c vc (omega arith) in
      subst (Grows s b) (ground arith) (vd, shown ∙ ap (λ q. q ++ s) (view_same b c v vc er f))
]

abbrev pub Becomes : Bytes → Buf → Type 0
Becomes q b' = IsValid b' × (view b' ≡ q)

-- The positions of an empty buffer are set back to the start.
reset_lem :
    (b b' : Buf)
    → IsValid b
    → b'.mem ≡ b.mem
    → b'.capacity ≡ b.capacity
    → b'.r ≡ 0
    → b'.w ≡ 0
    → Becomes [] b'
reset_lem b b' v em ec er ew = (v', view_lem v' ∙ rw (er, ew))
  where
    v' : IsValid b'
    v' = record {
      ordered = omega arith;
      within = omega arith;
      small = omega (arith, v.small);
      allocated = rw (em, ec) (v.allocated);
    }

pub length-view : (b : Buf) → length (view b) ≤ size b
unfolding view
length-view b = omega (arith, length-take (size b) (drop b.r b.mem))

pub drop_front_lem :
    (n : ℕ) (b : Buf) → IsValid b → n ≤ size b → Becomes (drop n (view b)) (drop_front n b)
unfolding drop_front
drop_front_lem n b v h = elim (Bool-cases (b.r + n == b.w)) [
  | inl all ↦
      rw (all, drop_all n (view b) (omega (arith, length-view b, size_lem v, (==_iff _ _).0 all)))
        (reset_lem b (record b { r = 0; w = 0 }) v refl refl refl refl)
  | inr some_left ↦ rw some_left (v', view_lem v' ∙ shown)
]
  where
    v' : IsValid (record b { r = b.r + n })
    v' = record {
      ordered = omega (arith, size_lem v, v.ordered);
      within = v.within;
      small = v.small;
      allocated = v.allocated;
    }

    shown : drop (b.r + n) (front b) ≡ drop n (view b)
    shown = sym (ap (drop n) (view_lem v) ∙ drop-drop n b.r (b.r + n) (front b) refl)

erase_lem : (n : ℕ) (b : Buf) → IsValid b → n ≤ size b → Becomes (take n (view b)) (erase n b)
unfolding erase
erase_lem n b v h = elim (Bool-cases (b.r == b.r + n)) [
  | inl all ↦
      let none_left : n ≡ 0 = omega (arith, (==_iff _ _).0 all) in
      rw (all, none_left) (reset_lem b (record b { r = 0; w = 0 }) v refl refl refl refl)
  | inr some_left ↦ rw some_left (v', shown)
]
  where
    v' : IsValid (record b { w = b.r + n })
    v' = record {
      ordered = omega arith;
      within = omega (arith, size_lem v, v.ordered, v.within);
      small = v.small;
      allocated = v.allocated;
    }

    shown : view (record b { w = b.r + n }) ≡ take n (view b)
    shown =
        unfold view in
        (ap (λ k. take k (drop b.r b.mem)) (size_lem v' ∙ omega arith)
          ∙ sym (take-take n (size b) (drop b.r b.mem) h))

move_lem : (b : Buf) → IsValid b → Becomes (view b) (move b)
unfolding move
move_lem b v = elim (Bool-cases (b.r == 0)) [
  | inl start ↦ rw start (v, refl)
  | inr later ↦ rw later (
      moved_lem (elim v.allocated [
        | inl nothing ↦ absurd (ground (arith, v.ordered, v.within))
        | inr e ↦ e
      ]))
]
  where
    kept : Bytes
    kept = take (b.w + 1 - b.r) (drop b.r b.mem)

    moved_lem :
        length b.mem ≡ b.capacity + 1
        → Becomes (view b) (record b { mem = poke 0 kept b.mem; w = b.w - b.r; r = 0 })
    moved_lem e =
        let len : length kept ≡ b.w + 1 - b.r = omega (
          arith,
          length-take (b.w + 1 - b.r) (drop b.r b.mem),
          length-drop b.r b.mem,
          v.within,
          v.ordered,
        ) in
        let v' : IsValid (record b { mem = poke 0 kept b.mem; w = b.w - b.r; r = 0 }) = record {
          ordered = omega arith;
          within = omega (arith, v.within);
          small = v.small;
          allocated = inr (length-poke 0 kept b.mem (omega (arith, v.within)) ∙ e);
        } in
        (
          v',
          view_lem v'
              ∙ take-append_front (b.w - b.r) kept (drop (0 + length kept) b.mem) (omega arith)
              ∙ take-take (b.w - b.r) (b.w + 1 - b.r) (drop b.r b.mem) (omega arith)
              ∙ unfold view in ap (λ k. take k (drop b.r b.mem)) (sym (size_lem v)),
        )

sysread_lem :
    (maxlen : ℕ) (s : Bytes) (b : Buf)
    → IsValid b
    → length s ≤ min maxlen (freecapa b)
    → Becomes (view b ++ s) (sysread maxlen (bytes s) b).0
unfolding sysread
sysread_lem maxlen s b v h =
    rw (take_all (min maxlen (freecapa b)) s h)
      (stored_lem s b v (omega (arith, freecapa_lem v, v.within)))

call_refines :
    (op : Op) (b b' : Buf)
    → IsValid b
    → Allowed op b
    → call op b ≡ some b'
    → Becomes (effect op (view b)) b'
unfolding call effect
call_refines (append alloc s) b b' v h e = add_lem alloc s b b' v h e
call_refines (discard n) b b' v h e =
    subst (Becomes (drop n (view b))) (cc) (drop_front_lem n b v h)
call_refines (cut n) b b' v h e = subst (Becomes (take n (view b))) (cc) (erase_lem n b v h)
call_refines tidy b b' v h e = subst (Becomes (view b)) (cc) (move_lem b v)
call_refines (receive maxlen s) b b' v h e =
    subst (Becomes (view b ++ s)) (cc) (sysread_lem maxlen s b v h)

-- Any calls with numbers that a caller may ask for, on a valid buffer: positions stay within the
-- memory, and what the buffer shows is what the same calls make of a queue.
pub Runs-refines :
    {ops : List Op} {b c : Buf}
    → IsValid b
    → Runs ops b c
    → IsValid c × (view c ≡ replay ops (view b))
unfolding replay
Runs-refines v done = (v, refl)
Runs-refines v (step {op = op} {ops = ops} {b = b'} {c = m} allowed e rest) =
    let (v', shown) = call_refines op b' m v allowed e in
    let (w, out) = Runs-refines v' rest in (w, out ∙ ap (replay ops) shown)
