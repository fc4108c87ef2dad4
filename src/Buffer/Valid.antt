-- ===== src/Buffer/Valid.antt =====
-- The buffer's invariant: positions within the memory, and sizes that 32 bits hold.
use apt_cacher_ng.Base.{
  ℕ, ◌+◌, ◌-◌, ◌*◌, ◌^◌, ◌≤◌, ◌<◌, ◌≡◌, ◌⊎◌, inl, inr, Bool-cases, refl, ap, ◌∙◌, false, Option,
  none, some, [], ◌∷◌, arith, Bytes, ◌==◌, ltb, length, take, drop, ==_iff,
}
use apt_cacher_ng.Buffer.{
  Buf, new_buf, size, freecapa, view, setsize, reserve_atleast, poke, resize, u32, moved,
}
use apt_cacher_ng.Buffer.Memory.{take-drop, take-resize, length-resize, length-poke, take-poke}

pub record IsValid (b : Buf) : Type 0 where
  pub ordered : b.r ≤ b.w
  pub within : b.w ≤ b.capacity
  pub small : b.capacity + 1 < 2 ^ 32
  -- The memory has a byte more than the capacity, for the terminator.
  pub allocated : (b.capacity ≡ 0) ⊎ (length b.mem ≡ b.capacity + 1)

-- The memory up to the write position.
abbrev pub front : Buf → Bytes
front b = take b.w b.mem

pub new_buf-IsValid : IsValid new_buf
new_buf-IsValid = record {
  ordered = omega arith;
  within = omega arith;
  small = omega arith;
  allocated = inl refl;
}

pub size_lem : {b : Buf} → IsValid b → size b ≡ b.w - b.r
unfolding size
size_lem v = omega arith

pub freecapa_lem : {b : Buf} → IsValid b → freecapa b ≡ b.capacity - b.w
unfolding freecapa
freecapa_lem v = omega arith

pub view_lem : {b : Buf} → IsValid b → view b ≡ drop b.r (front b)
unfolding view
view_lem {b} v =
    ap (λ n. take n (drop b.r b.mem)) (size_lem v)
    ∙ take-drop (b.w - b.r) b.r b.w b.mem (omega arith)

-- The memory reaches to the write position.
pub le-length_mem : {b : Buf} → IsValid b → b.w ≤ length b.mem
le-length_mem {b} v = elim v.allocated [ inl e ↦ omega arith | inr e ↦ omega arith ]

-- What setsize makes of the memory where it has to allocate.
module _ (fresh : ℕ → ℕ) (c : ℕ) (b : Buf) (v : IsValid b) (h : b.w ≤ c) (g : c + 1 < 2 ^ 32) where
  abbrev grown : Bytes
  grown = poke c (0 ∷ []) (resize (u32 (c + 1)) fresh b.mem)

  u32_id : u32 (c + 1) ≡ c + 1
  u32_id = omega arith

  length-grown : length grown ≡ c + 1
  length-grown =
      length-poke c (0 ∷ []) (resize (u32 (c + 1)) fresh b.mem)
        (omega (arith, length-resize (u32 (c + 1)) fresh b.mem))
      ∙ length-resize (u32 (c + 1)) fresh b.mem
      ∙ u32_id

  take-grown : take b.w grown ≡ front b
  take-grown =
      take-poke b.w c (0 ∷ []) (resize (u32 (c + 1)) fresh b.mem) h
        (omega (arith, length-resize (u32 (c + 1)) fresh b.mem))
      ∙ take-resize b.w (u32 (c + 1)) fresh b.mem (omega arith) (le-length_mem v)

abbrev Resized : ℕ → Buf → Buf → Type 0
Resized c b b' = IsValid b' × (b'.r ≡ b.r) × (b'.w ≡ b.w) × (b'.capacity ≡ c) × (front b' ≡ front b)

pub setsize_lem :
    (alloc : Option (ℕ → ℕ)) (c : ℕ) (b : Buf)
    → IsValid b
    → b.w ≤ c
    → c + 1 < 2 ^ 32
    → ((setsize alloc c b).1 ≡ false) ⊎ Resized c b (setsize alloc c b).0
unfolding setsize moved
setsize_lem alloc c b v h g = elim (Bool-cases (b.capacity == c)) [
  | inl same ↦ rw same (inr (v, refl, refl, (==_iff b.capacity c).0 same, refl))
  | inr other ↦ rw other (allocate alloc)
]
  where
    allocate : (o : Option (ℕ → ℕ)) → ((moved c b o).1 ≡ false) ⊎ Resized c b (moved c b o).0
    allocate none = inl refl
    allocate (some fresh) = inr (
      record {
        ordered = v.ordered;
        within = h;
        small = g;
        allocated = inr (length-grown fresh c b v h g);
      },
      refl,
      refl,
      refl,
      take-grown fresh c b v h g,
    )

-- Another buffer with the same data, and room for `n` more bytes.
abbrev Roomy : ℕ → Buf → Buf → Type 0
Roomy n b b' =
    IsValid b' × (b'.r ≡ b.r) × (b'.w ≡ b.w) × (b.w + n ≤ b'.capacity) × (front b' ≡ front b)

pub reserve_atleast_lem :
    (alloc : Option (ℕ → ℕ)) (n : ℕ) (b b' : Buf)
    → IsValid b
    → 2 * (b.w + n) + 1 < 2 ^ 32
    → reserve_atleast alloc n b ≡ some b'
    → Roomy n b b'
unfolding reserve_atleast
reserve_atleast_lem alloc n b b' v h e = elim (Bool-cases (ltb (b.w + n + 1) b.capacity)) [
  | inl room ↦ ground arith
  | inr full ↦ elim (setsize_lem alloc (u32 (2 * (b.w + n))) b v (omega arith) (omega arith)) [
    | inl refused ↦ ground arith
    | inr w ↦ ground arith
  ]
]
