-- ===== src/FileItem/Received.antt =====
-- The data that an item has received: the front of its file, up to the checked size.
use apt_cacher_ng.Base.{
  ℕ, ◌+◌, ◌-◌, ◌≤◌, ◌≡◌, sym, ap, ◌∙◌, some, List, [], ◌∷◌, ◌++◌, arith, Bytes, length, take, drop,
  take-append, take-append-drop, length-take, length-append, append_assoc, min, pos, ◌+ℤ◌, pos_part,
  subst, append-nil, length-drop, replicate,
}
use apt_cacher_ng.FileItem.{Store}
use apt_cacher_ng.FileItem.Writer.{bytes_of}
use apt_cacher_ng.FileItem.Added.{
  file_position, write_at, put, write_chunk, WriteResult, wrote, interrupted, write_error, accepted,
}

abbrev pub checked : Store → ℕ
checked s = pos_part s.item.size_checked

abbrev pub received : Store → Bytes
received s = take (checked s) (bytes_of s.disk.content)

-- The file is open at the checked size, which lies within it.
pub record Streaming (s : Store) : Type 0 where
  pub at : s.item.file ≡ some (checked s)
  pub known : s.item.size_checked ≡ pos (checked s)
  pub within : checked s ≤ length (bytes_of s.disk.content)

-- Writing at a position within the file keeps what is before it.
take-write_at :
    (n k : ℕ) (chunk b : Bytes)
    → n ≤ length b
    → k ≡ length chunk
    → take (n + k) (write_at n chunk b) ≡ take n b ++ chunk
take-write_at n k chunk b h e =
    let none_missing : n - length b ≡ 0 = omega arith in
    rw (none_missing, ← append_assoc (take n b) chunk (drop (n + length chunk) b))
      (take-append (n + k) (take n b ++ chunk) _
        (omega (arith, length-append (take n b) chunk, length-take n b)))

length-write_at :
    (n : ℕ) (chunk b : Bytes) → n ≤ length b → n + length chunk ≤ length (write_at n chunk b)
length-write_at n chunk b h = omega (
  arith,
  length-append (take n b) (replicate (n - length b) 0 ++ (chunk ++ drop (n + length chunk) b)),
  length-append (replicate (n - length b) 0) (chunk ++ drop (n + length chunk) b),
  length-append chunk (drop (n + length chunk) b),
  length-take n b,
)

abbrev offered : ℕ → Bytes → ℕ
offered n chunk = min n (length chunk)

put-size :
    (k : ℕ) (chunk : Bytes) (s : Store)
    → Streaming s
    → (put k chunk s).item.size_checked ≡ pos (checked s + k)
unfolding put ◌+ℤ◌
put-size k chunk s v = ground (arith, v.known)

put-file :
    (k : ℕ) (chunk : Bytes) (s : Store)
    → Streaming s
    → (put k chunk s).item.file ≡ some (checked s + k)
unfolding put
put-file k chunk s v = ap (λ f. some (file_position f + k)) v.at

put-content :
    (k : ℕ) (chunk : Bytes) (s : Store)
    → Streaming s
    → bytes_of (put k chunk s).disk.content
      ≡ write_at (checked s) (take k chunk) (bytes_of s.disk.content)
unfolding put
put-content k chunk s v =
    ap (λ f. write_at (file_position f) (take k chunk) (bytes_of s.disk.content)) v.at

length-offered : (k : ℕ) (chunk : Bytes) → k ≤ length chunk → length (take k chunk) ≡ k
length-offered k chunk h = omega (arith, length-take k chunk)

-- One write.
put-Streaming :
    (k : ℕ) (chunk : Bytes) (s : Store) → Streaming s → k ≤ length chunk → Streaming (put k chunk s)
put-Streaming k chunk s v h = record {
  at = put-file k chunk s v ∙ ap some (sym size);
  known = put-size k chunk s v ∙ ap pos (sym size);
  within = rw (put-content k chunk s v) (
      omega (
        arith,
        size,
        length-write_at (checked s) (take k chunk) (bytes_of s.disk.content) v.within,
        length-offered k chunk h,
      ));
}
  where
    size : checked (put k chunk s) ≡ checked s + k
    size = ap pos_part (put-size k chunk s v)

put-received :
    (k : ℕ) (chunk : Bytes) (s : Store)
    → Streaming s
    → k ≤ length chunk
    → received (put k chunk s) ≡ received s ++ take k chunk
put-received k chunk s v h =
    rw (put-content k chunk s v, put-size k chunk s v)
      (take-write_at (checked s) k (take k chunk) (bytes_of s.disk.content) v.within
        (sym (length-offered k chunk h)))

-- However the calls of `write` part the chunk: if it is accepted, all of it stands behind what
-- was received before.
pub write_chunk-received :
    (rs : List WriteResult) (chunk : Bytes) (s t : Store)
    → Streaming s
    → write_chunk rs chunk s ≡ (t, accepted)
    → Streaming t × (received t ≡ received s ++ chunk) × (checked t ≡ checked s + length chunk)
unfolding write_chunk
write_chunk-received rs [] s t v e =
    let same : s ≡ t = cc in
    subst (λ t. Streaming t × (received t ≡ received s ++ []) × (checked t ≡ checked s + 0)) same
      (v, sym (append-nil (received s)), omega arith)
write_chunk-received [] (c ∷ chunk) s t v e = cc
write_chunk-received (wrote n ∷ rs) (c ∷ chunk) s t v e =
    let all = c ∷ chunk in
    let k = min n (length all) in
    let fits : k ≤ length all = omega arith in
    let (v', r, size) =
      write_chunk-received rs (drop k all) (put k all s) t (put-Streaming k all s v fits) e in
    (
      v',
      r
          ∙ ap (λ b. b ++ drop k all) (put-received k all s v fits)
          ∙ append_assoc (received s) (take k all) (drop k all)
          ∙ ap (λ b. received s ++ b) (take-append-drop k all),
      omega (arith, length-drop k all, ap pos_part (put-size k all s v)),
    )
write_chunk-received (interrupted ∷ rs) (c ∷ chunk) s t v e = cc
write_chunk-received (write_error ∷ rs) (c ∷ chunk) s t v e = cc
