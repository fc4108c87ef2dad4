-- ===== src/FileItem/Opening.antt =====
-- SafeOpenOutFile where it succeeds: the front of the file that was checked is still there.
use apt_cacher_ng.Base.{
  ℕ, ◌+◌, ◌≤◌, ◌≡◌, refl, sym, subst, ap, ap₂, ◌∙◌, ◌⊎◌, inl, inr, Bool, true, false, some, List,
  [], ◌++◌, arith, Bytes, length, take, pos, pos_part, Bool-cases, none,
}
use apt_cacher_ng.FileItem.{Store, dl_receiving}
use apt_cacher_ng.FileItem.Writer.{
  bytes_of, with_error, ReplaceEnv, OpenEnv, replace_file, move_release, open_file, begin_stream,
  position, ◌>>=◌, check, shrink, within_file, open_steps, closed, safe_open_out_file,
}
use apt_cacher_ng.FileItem.Added.{
  is_open, WriteResult, accepted, write_chunk, add_opened, add_after, counted, dl_add_data,
}
use apt_cacher_ng.FileItem.Received.{checked, received, Streaming, write_chunk-received}

>>=-eq-true :
    (m : Store × Bool) (f : Store → Store × Bool) {t : Store}
    → (m >>= f) ≡ (t, true)
    → (s : Store) × (m ≡ (s, true)) × (f s ≡ (t, true))
>>=-eq-true (s, true) f h = (s, refl, h)
>>=-eq-true (s, false) f h = cc

-- The checked size stays, and the file is what it was or is empty.
record KeepsFront (s t : Store) : Type 0 where
  size : t.item.size_checked ≡ s.item.size_checked
  front : (bytes_of t.disk.content ≡ bytes_of s.disk.content) ⊎ (bytes_of t.disk.content ≡ [])

KeepsFront-trans : {s t u : Store} → KeepsFront s t → KeepsFront t u → KeepsFront s u
KeepsFront-trans k l = record { size = l.size ∙ k.size; front = ground arith }

move_release-KeepsFront : (b : Bool) (s : Store) → KeepsFront s (move_release b s)
unfolding move_release
move_release-KeepsFront b s = ground arith

replace_file-KeepsFront :
    (e : ReplaceEnv) (s : Store) {t : Store} → replace_file e s ≡ (t, true) → KeepsFront s t
unfolding replace_file
replace_file-KeepsFront e s h = ground arith

open_file-KeepsFront :
    (e : OpenEnv) (s : Store) {t : Store} → open_file e s ≡ (t, true) → KeepsFront s t
unfolding open_file
open_file-KeepsFront e s h = ground arith

shrink-KeepsFront :
    (e : ReplaceEnv) (s : Store) {t : Store} → shrink e s ≡ (t, true) → KeepsFront s t
unfolding shrink
shrink-KeepsFront e s h = ground arith

check-eq-true : (b : Bool) (s : Store) {t : Store} → check b s ≡ (t, true) → (b ≡ true) × (t ≡ s)
unfolding with_error
check-eq-true b s h = ground arith

position-Streaming : (s : Store) → within_file (position s) ≡ true → Streaming (position s)
unfolding position
position-Streaming s h = ground arith

checked-position : (s : Store) → checked (position s) ≡ checked s
unfolding position
checked-position s = ground arith

checked_within :
    (s : Store) → within_file (position s) ≡ true → checked s ≤ length (bytes_of s.disk.content)
unfolding position
checked_within s h = ground arith

position-received :
    (s t : Store)
    → KeepsFront s t
    → within_file (position t) ≡ true
    → received (position t) ≡ received s
unfolding position
position-received s t k h = elim k.front [
  | inl same ↦ ap₂ take (checked-position t ∙ ap pos_part k.size) same
  | inr empty ↦
      let none_checked : checked s ≡ 0 =
        omega (arith, checked_within t h, ap length empty, ap pos_part k.size) in
      ap₂ take (checked-position t ∙ ap pos_part k.size ∙ none_checked) empty
      ∙ ap (λ (n : ℕ). take n (bytes_of s.disk.content)) (sym none_checked)
]

-- The two stores agree on the open file, its content and the checked size.
record SameStream (s t : Store) : Type 0 where
  file : t.item.file ≡ s.item.file
  size : t.item.size_checked ≡ s.item.size_checked
  content : t.disk.content ≡ s.disk.content

SameStream-Streaming : {s t : Store} → SameStream s t → Streaming s → Streaming t
SameStream-Streaming m v = record {
  at = m.file ∙ v.at ∙ ap (λ z. some (pos_part z)) (sym m.size);
  known = m.size ∙ v.known ∙ ap (λ z. pos (pos_part z)) (sym m.size);
  within = omega (arith, v.within, ap pos_part m.size, ap (λ c. length (bytes_of c)) m.content);
}

SameStream-received : {s t : Store} → SameStream s t → received t ≡ received s
SameStream-received m = ap₂ (λ z c. take (pos_part z) (bytes_of c)) m.size m.content

begin_stream-SameStream :
    (a : ℕ) (e : OpenEnv) (s : Store) {t : Store}
    → begin_stream a e s ≡ (t, true)
    → SameStream s t × (t.item.status ≡ dl_receiving)
unfolding begin_stream
begin_stream-SameStream a e s h = ground arith

open_steps-Streaming :
    (a : ℕ) (e : OpenEnv) (s : Store) {t : Store}
    → open_steps a e s ≡ (t, true)
    → Streaming t
      × (received t ≡ received s)
      × (checked t ≡ checked s)
      × (t.item.status ≡ dl_receiving)
unfolding open_steps
open_steps-Streaming a e s {t} h =
    let (s₂, h₂, r₂) = >>=-eq-true (open_file e (move_release e.can_copy s)) _ h in
    let (s₃, h₃, r₃) = >>=-eq-true (check e.can_seek s₂) _ r₂ in
    let (s₄, h₄, r₄) = >>=-eq-true (shrink e.second s₃) _ r₃ in
    let (s₅, h₅, r₅) = >>=-eq-true (check (within_file (position s₄)) (position s₄)) _ r₄ in
    let (_, e₃) = check-eq-true e.can_seek s₂ h₃ in
    let (fits, e₅) = check-eq-true (within_file (position s₄)) (position s₄) h₅ in
    let kept = KeepsFront-trans (move_release-KeepsFront e.can_copy s) (
      KeepsFront-trans (open_file-KeepsFront e (move_release e.can_copy s) h₂)
        (subst (λ u. KeepsFront u s₄) e₃ (shrink-KeepsFront e.second s₃ h₄))) in
    let (same, receiving) =
      begin_stream-SameStream a e (position s₄)
        (subst (λ u. begin_stream a e u ≡ (t, true)) e₅ r₅) in
    (
      SameStream-Streaming same (position-Streaming s₄ fits),
      SameStream-received same ∙ position-received s s₄ kept fits,
      ap pos_part same.size ∙ checked-position s₄ ∙ ap pos_part kept.size,
      receiving,
    )

opened_steps :
    (a : ℕ) (e : OpenEnv) (s : Store) {t : Store}
    → safe_open_out_file a e s ≡ (t, true)
    → open_steps a e (closed s) ≡ (t, true)
unfolding safe_open_out_file
opened_steps a e s h = ground arith

-- An item whose file has been opened is receiving, at the size checked before, and what was
-- received before is still in front.
pub safe_open_out_file-Streaming :
    (a : ℕ) (e : OpenEnv) (s : Store) {t : Store}
    → safe_open_out_file a e s ≡ (t, true)
    → Streaming t
      × (received t ≡ received s)
      × (checked t ≡ checked s)
      × (t.item.status ≡ dl_receiving)
safe_open_out_file-Streaming a e s h = open_steps-Streaming a e (closed s) (opened_steps a e s h)

add_opened-eq-accepted :
    (rs : List WriteResult) (chunk : Bytes) (s : Store) {t : Store}
    → add_opened rs chunk s ≡ (t, accepted)
    → write_chunk rs chunk s ≡ (t, accepted)
unfolding add_opened
add_opened-eq-accepted rs chunk s h = ground arith

-- No file is open, or it is open at the checked size.
abbrev pub Ready : Store → Type 0
Ready s = (s.item.file ≡ none) ⊎ Streaming s

Ready-open : (s : Store) → Ready s → is_open s.item.file ≡ true → Streaming s
Ready-open s (inl closed_now) h = absurd (ground (arith, closed_now, h))
Ready-open s (inr v) h = v

add_opened-received :
    (rs : List WriteResult) (chunk : Bytes) (s t : Store)
    → Streaming s
    → add_opened rs chunk s ≡ (t, accepted)
    → Streaming t × (received t ≡ received s ++ chunk) × (checked t ≡ checked s + length chunk)
add_opened-received rs chunk s t v h =
    write_chunk-received rs chunk s t v (add_opened-eq-accepted rs chunk s h)

counted-SameStream : (n : ℕ) (s : Store) → SameStream s (counted n s)
counted-SameStream n s = record { file = refl; size = refl; content = refl }

add_after-eq-accepted :
    (rs : List WriteResult) (chunk : Bytes) (m : Store × Bool) {t : Store}
    → add_after rs chunk m ≡ (t, accepted)
    → (u : Store) × (m ≡ (u, true)) × (add_opened rs chunk u ≡ (t, accepted))
add_after-eq-accepted rs chunk (u, true) h = (u, refl, h)
add_after-eq-accepted rs chunk (u, false) h = cc

-- A chunk that DlAddData accepts, through whatever openings, replacements of the file and short
-- writes, stands behind all that was received before, and the checked size counts both, provided
-- that a file which is open already is open at the checked size.
pub dl_add_data-received :
    (a : ℕ) (e : OpenEnv) (rs : List WriteResult) (chunk : Bytes) (s t : Store)
    → Ready s
    → dl_add_data a e rs chunk s ≡ (t, accepted)
    → Streaming t × (received t ≡ received s ++ chunk) × (checked t ≡ checked s + length chunk)
unfolding dl_add_data
dl_add_data-received a e rs chunk s t r h = elim (Bool-cases (is_open s.item.file)) [
  | inl open_now ↦
      add_opened-received rs chunk s' t
        (SameStream-Streaming (counted-SameStream (length chunk) s) (Ready-open s r open_now))
        (ground arith)
  | inr not_open ↦
      let (u, opened, added) =
        add_after-eq-accepted rs chunk (safe_open_out_file a e s') (ground arith) in
      let (v, kept, size, _) = safe_open_out_file-Streaming a e s' opened in
      let (v', r', n) = add_opened-received rs chunk u t v added in
      (v', r' ∙ ap (λ b. b ++ chunk) kept, n ∙ ap (λ (m : ℕ). m + length chunk) size)
]
  where
    s' : Store
    s' = counted (length chunk) s
