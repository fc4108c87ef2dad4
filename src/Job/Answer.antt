-- ===== src/Job/Answer.antt =====
-- tDlJob::CheckAndSaveHeader of src/dlcon.cc: what a response's header makes of the file item.
use apt_cacher_ng.Base.{
  ℕ, ◌+◌, ◌%◌, Bool, true, false, not, ◌&&◌, ◌||◌, Option, none, some, [], ◌∷◌, Bytes, codes,
  if◌then◌else◌, ◌==◌, ltb, leb, length, drop, null, starts_with, ℤ, pos, minus_one, eq_ℤ, lt_ℤ,
  ◌-ℤ◌,
}
use apt_cacher_ng.Text.{space_chars, trim_front}
use apt_cacher_ng.Text.Decimal.{is_digit, after_digits, atoll}
use apt_cacher_ng.Http.{Dates, RemoteStatus, http_date, date_eq, is_redirect}
use apt_cacher_ng.Header.{Header}
use apt_cacher_ng.FileItem.{
  FileItem, Store, DestroyMode, keep, truncate, complete, dl_pending, rank, HeadWrite, dl_set_error,
  dl_started, dl_finish, u64,
}

-- The places of the header's fields that are read here.
abbrev pub content_range_pos : ℕ
content_range_pos = 5

abbrev pub last_modified_pos : ℕ
last_modified_pos = 6

abbrev pub location_pos : ℕ
location_pos = 12

abbrev pub text_of : Option Bytes → Bytes
text_of none = []
text_of (some s) = s

-- The regular expression "bytes(\s*|=)(\d+)-(\d+|\*)/(\d+|\*)", at the start of a text: the text
-- from its second group on and from its fourth on. No two of its parts can share a character, so
-- that it matches in one way at most.
abbrev star_or_digits : Bytes → Option Bytes
star_or_digits [] = none
star_or_digits (c ∷ s) =
    if is_digit c then some (after_digits (c ∷ s)) else if c == b'*' then some s else none

abbrev skip_byte : ℕ → Bytes → Option Bytes
skip_byte c [] = none
skip_byte c (d ∷ s) = if d == c then some s else none

abbrev starts_digit : Bytes → Bool
starts_digit [] = false
starts_digit (c ∷ s) = is_digit c

infixl 5 ◌>>=◌
abbrev ◌>>=◌ {ℓ ℓ₂} : {A : Type ℓ} {B : Type ℓ₂} → Option A → (A → Option B) → Option B
◌>>=◌ none f = none
◌>>=◌ (some x) f = f x

-- From the second group on.
unfoldable pub range_tail : Bytes → Option (Bytes × Bytes)
range_tail s = do
  t ← if starts_digit s then skip_byte b'-' (after_digits s) else none
  u ← star_or_digits t
  v ← skip_byte b'/' u
  w ← star_or_digits v
  some (s, v)

-- The first group is white space, or else a '='.
abbrev behind_space_or_equals : Bytes → Option (Bytes × Bytes)
behind_space_or_equals t = elim (range_tail (trim_front space_chars t)) [
  | some m ↦ some m
  | none ↦ skip_byte b'=' t >>= range_tail
]

unfoldable pub range_here : Bytes → Option (Bytes × Bytes)
unfolding range_tail
range_here s = if starts_with s (codes "bytes") then behind_space_or_equals (drop 5 s) else none

-- regex_search: the first place that matches.
unfoldable pub range_search : Bytes → Option (Bytes × Bytes)
unfolding range_here
range_search [] = none
range_search (c ∷ s) =
    let rest = range_search s in elim (range_here (c ∷ s)) [ some m ↦ some m | none ↦ rest ]

-- The numbers that the code takes from a match: the start, and the whole length. `atoofft` gives 0
-- for a '*'.
unfoldable pub content_range : Bytes → Option (ℤ × ℤ)
unfolding range_search
content_range s = elim (range_search s) [ none ↦ none | some m ↦ some (atoll m.0, atoll m.1) ]

-- EResponseEval.
pub data ResponseEval : Type 0 where
  good busy_or_error restart_needed : ResponseEval

-- The fields of tDlJob that are read or set here, with the item.
pub record Answer : Type 0 where
  pub assigned : Bool
  pub allow_store_data : Bool
  pub used_range_start : ℤ
  pub store : Store

abbrev pub set_fi : FileItem → Answer → Answer
set_fi i a = record a { store = record (a.store) { item = i } }

module _ (lib : Dates) (now : ℕ) (head_write : HeadWrite) where
  abbrev mark_assigned : Answer → Answer
  mark_assigned a =
      set_fi (record (a.store.item) { time_dl_started = now }) (record a { assigned = true })

  -- The lambda `withError`.
  unfoldable pub answer_error : Bytes → DestroyMode → Answer → ResponseEval × Answer
  answer_error message destruction a =
      let b = mark_assigned (record a { allow_store_data = false }) in
      (
        busy_or_error,
        set_fi (dl_set_error (record { code = pos 503; msg = message }) destruction b.store.item) b,
      )

  -- The part behind the switch.
  unfoldable pub announce :
      Bytes → Bytes → Bytes → RemoteStatus → ℤ → Answer → ResponseEval × Answer
  announce raw date origin status len a =
      let b = mark_assigned a in
      let (i, taken) = dl_started lib raw date origin status b.used_range_start len b.store.item in
      let c = set_fi i b in
      if not taken
      then (busy_or_error, c)
      else if c.allow_store_data
      then (good, c)
      else (good, record c { store = dl_finish head_write true c.store })

  -- The special probe: the server reports what was there already.
  unfoldable pub is_probe_of : Header → ℤ → ℤ → FileItem → Bool
  is_probe_of h start len i =
      i.spattr.volatile
      && (lt_ℤ (pos 0) i.size_cached_initial
          && (eq_ℤ len i.size_cached_initial
              && (eq_ℤ (i.size_cached_initial -ℤ pos 1) start
                  && date_eq lib i.response_mod_date (text_of (h.h last_modified_pos)))))

  -- What the probe ends with.
  unfoldable pub confirmed : Answer → ResponseEval × Answer
  confirmed a =
      let b = mark_assigned (record a { allow_store_data = false }) in
      let i = record (b.store.item) {
        size_checked = b.store.item.size_cached_initial;
        content_length = b.store.item.size_cached_initial;
      } in
      (good, record b { store = dl_finish head_write true (record (b.store) { item = i }) })

  -- 206.
  unfoldable pub partial : Bytes → Bytes → Header → Answer → ResponseEval × Answer
  partial raw uri h a = elim (h.h content_range_pos) [
    | none ↦ answer_error (codes "Missing Content-Range in Partial Response") keep a
    | some text ↦ elim (content_range text) [
      | none ↦ answer_error (codes "Bad range") keep a
      | some range ↦
          if is_probe_of h range.0 range.1 a.store.item
          then confirmed a
          else if eq_ℤ range.0 minus_one
              || (not (eq_ℤ a.used_range_start range.0)
                  || lt_ℤ range.0 a.store.item.size_cached_initial)
          then answer_error (codes "Server reports unexpected range") keep a
          else announce raw (http_date lib (text_of (h.h last_modified_pos))) uri
              (record { code = pos 200; msg = codes "OK" }) range.1 a
    ]
  ]

  -- 416.
  unfoldable pub denied : Answer → ResponseEval × Answer
  denied a =
      if lt_ℤ a.store.item.size_checked (pos 0)
      then (
        restart_needed,
        set_fi
            (record (a.store.item) { size_cached_initial = pos 0; writer_must_replace_file = true })
            a,
      )
      else answer_error (codes "Disagreement on file size, cleaning up") truncate
          (record a { allow_store_data = false })

  -- All codes but 200, 206 and 416.
  unfoldable pub without_body : Bytes → Bytes → Header → Answer → ResponseEval × Answer
  without_body raw uri h a =
      let date = http_date lib (text_of (h.h last_modified_pos)) in
      let location = text_of (h.h location_pos) in
      let b = record a { allow_store_data = false } in
      if a.assigned
      then answer_error h.status.msg keep a
      else if is_redirect h.status.code
      then (if null location
          then answer_error (codes "Invalid redirection (missing location)") keep a
          else announce raw date location h.status minus_one b)
      else announce raw date uri h.status minus_one b

  unfoldable pub by_code : Bytes → Bytes → Header → ℤ → Answer → ResponseEval × Answer
  by_code raw uri h len a =
      if eq_ℤ h.status.code (pos 200)
      then announce raw (http_date lib (text_of (h.h last_modified_pos))) uri h.status len
          (record a { used_range_start = pos 0 })
      else if eq_ℤ h.status.code (pos 206)
      then partial raw uri h a
      else if eq_ℤ h.status.code (pos 416)
      then denied a
      else without_body raw uri h a

  -- CheckAndSaveHeader; `uri` is RemoteUri(false).
  unfoldable pub check_and_save_header : Bytes → Bytes → Header → ℤ → Answer → ResponseEval × Answer
  check_and_save_header raw uri h len a =
      let i = a.store.item in
      let b = set_fi (record i { incoming_count = (i.incoming_count + length raw) % u64 }) a in
      if leb (rank complete) (rank i.status)
      then (busy_or_error, b)
      else if not a.assigned && ltb (rank dl_pending) (rank i.status)
      then (busy_or_error, b)
      else by_code raw uri h len b
