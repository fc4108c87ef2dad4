-- ===== src/Http.antt =====
-- tRemoteStatus and tHttpDate of src/httpdate.h and src/httpdate.cc.
-- A date is the text in tHttpDate::buf up to its NUL, empty when unset. What strptime, mktime and
-- strftime make of a text is a parameter, `Dates`.
use apt_cacher_ng.Base.{
  ℕ, Bool, true, false, not, ◌&&◌, ◌||◌, Option, none, some, [], ◌∷◌, Bytes, codes, if◌then◌else◌,
  ◌==◌, ltb, leb, starts_with, equal, length, null, ℤ, pos, negsuc, eq_ℤ, minus_one, min, ◌%◌, ◌^◌,
  ◌-◌,
}
use apt_cacher_ng.Text.{
  space_chars, trim_front, Walk, walk_over, view, next_by_chars, right_by_chars,
}
use apt_cacher_ng.Text.Decimal.{is_digit, after_digits, atoll}

pub record RemoteStatus : Type 0 where
  pub code : ℤ
  pub msg : Bytes

unfoldable pub is_redirect : ℤ → Bool
is_redirect (pos n) = n == 301 || n == 302 || n == 303 || n == 307 || n == 308
is_redirect (negsuc n) = false

unfoldable pub must_not_have_body : ℤ → Bool
must_not_have_body (pos n) = n == 304 || n == 204 || (leb 100 n && ltb n 200)
must_not_have_body (negsuc n) = false

-- What strtol leaves unread: all, where there is no number.
unfoldable pub after_number : Bytes → Bytes → Bytes
after_number s [] = s
after_number s (c ∷ []) = if is_digit c then [] else s
after_number s (c ∷ d ∷ t) =
    if is_digit c
    then after_digits (d ∷ t)
    else if (c == b'-' || c == b'+') && is_digit d
    then after_digits (d ∷ t)
    else s

unfoldable pub strtol_end : Bytes → Bytes
unfolding after_number
strtol_end s = after_number s (trim_front space_chars s)

-- strtol stops at LONG_MAX and LONG_MIN.
unfoldable pub to_long : ℤ → ℤ
to_long (pos n) = pos (min n (2 ^ 63 - 1))
to_long (negsuc n) = negsuc (min n (2 ^ 63 - 1))

-- `svtol` where `s` is the text from the token on, to the end of its line: the value, unless what
-- follows the number is a NUL. The end of the line stands for one.
abbrev stops_at : Bytes → ℤ → ℤ → ℤ
stops_at [] value error_value = error_value
stops_at (c ∷ rest) value error_value = if c == 0 then error_value else value

unfoldable pub svtol : Bytes → ℤ → ℤ
unfolding strtol_end to_long
svtol s error_value = stops_at (strtol_end s) (to_long (atoll s)) error_value

-- A long as an int.
unfoldable pub to_int : ℤ → ℤ
to_int (pos n) =
    let low = n % 2 ^ 32 in if ltb low (2 ^ 31) then pos low else negsuc (2 ^ 32 - 1 - low)
to_int (negsuc n) =
    let low = n % 2 ^ 32 in if ltb low (2 ^ 31) then negsuc low else pos (2 ^ 32 - 1 - low)

abbrev bad_line : ℤ → RemoteStatus
bad_line error_code = record { code = error_code; msg = codes "Invalid header line" }

-- The constructor of tRemoteStatus, whose code is an int, once the splitter stands at the status code.
unfoldable pub status_at : ℤ → Walk → RemoteStatus
unfolding svtol to_int
status_at error_code w =
    let code = to_int (svtol w.input (pos 0)) in
    let msg = right_by_chars space_chars w in
    if null (view w) || eq_ℤ code (pos 0)
    then bad_line error_code
    else if null msg
    then bad_line error_code
    else record { code = code; msg = msg }

abbrev status_from : ℤ → Option Walk → RemoteStatus
status_from error_code none = bad_line error_code
status_from error_code (some w) = status_at error_code w

-- tRemoteStatus(s, errorCode, stripHttpPrefix).
unfoldable pub remote_status : Bytes → ℤ → Bool → RemoteStatus
unfolding status_at
remote_status s error_code strip = elim (next_by_chars space_chars (walk_over s)) [
  | none ↦ bad_line error_code
  | some w ↦
      if strip && starts_with (view w) (codes "HTTP/1")
      then status_from error_code (next_by_chars space_chars w)
      else status_at error_code w
]

-- The C library on dates: `reformat` is ParseDate and FormatTime, [] where either fails; `seconds`
-- is ParseDate into a time_t.
pub record Dates : Type 0 where
  pub reformat : Bytes → Bytes
  pub seconds : Bytes → Option ℤ

-- sizeof(tHttpDate::buf).
abbrev pub date_size : ℕ
date_size = 30

-- The constructors of tHttpDate from a text, without forceNorm.
unfoldable pub http_date : Dates → Bytes → Bytes
http_date lib val =
    if null val then [] else if ltb (length val) date_size then val else lib.reformat val

abbrev pub is_set : Bytes → Bool
is_set d = not (null d)

-- `value`.
unfoldable pub date_value : Dates → Bytes → ℤ → ℤ
date_value lib d if_bad =
    if is_set d then elim (lib.seconds d) [ none ↦ if_bad | some t ↦ t ] else if_bad

abbrev same_set : Bool → Bool → Bool
same_set true b = b
same_set false b = not b

-- operator==, of two dates, and of a date and a text.
unfoldable pub date_eq : Dates → Bytes → Bytes → Bool
unfolding date_value
date_eq lib a b =
    if not (same_set (is_set a) (is_set b))
    then false
    else if equal a b
    then true
    else eq_ℤ (date_value lib a minus_one) (date_value lib b (negsuc 1))
