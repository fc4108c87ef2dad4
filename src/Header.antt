-- ===== src/Header.antt =====
-- The HTTP header of src/header.cc and src/header.h: the fields, resolvePos, and ToString. A field of
-- `h` is a C string, so it ends at its first NUL.
pub mod Lines
pub mod Custom
pub mod Forwarded
pub mod Ends
pub mod Framing
use apt_cacher_ng.Base.{
  ℕ, zero, suc, ◌+◌, ◌-◌, ◌≡◌, refl, Bool, true, false, not, ◌&&◌, ◌||◌, Option, none, some, List,
  [], ◌∷◌, ◌++◌, Bytes, codes, if◌then◌else◌, ◌==◌, ltb, leb, length, take, drop, starts_with, null,
  get_elem?, ℤ, pos, negsuc, lt_ℤ, minus_one,
}
use apt_cacher_ng.Text.{
  space_chars, crlf, find, find_first_not_of, trim_front, trim_back, trim_both, Walk, walk_over,
  view, next_by_str,
}
use apt_cacher_ng.Text.Decimal.{print_ℤ}
use apt_cacher_ng.Http.{RemoteStatus, remote_status}

-- eHeadType; HEAD is a request's.
pub data HeadType : Type 0 where
  invalid head get post connect answer : HeadType

-- eHeadPos: the place in `head_names`; two more values follow the last place.
abbrev pub headpos_max : ℕ
headpos_max = 15

abbrev pub headpos_unk_export : ℕ
headpos_unk_export = 16

-- mapId2Headname.
unfoldable pub head_names : List Bytes
head_names =
    codes "Connection"
    ∷ codes "Content-Length"
    ∷ codes "If-Modified-Since"
    ∷ codes "Range"
    ∷ codes "If-Range"
    ∷ codes "Content-Range"
    ∷ codes "Last-Modified"
    ∷ codes "Proxy-Connection"
    ∷ codes "Transfer-Encoding"
    ∷ codes "X-Original-Source"
    ∷ codes "Authorization"
    ∷ codes "X-Forwarded-For"
    ∷ codes "Location"
    ∷ codes "Content-Type"
    ∷ codes "Cache-Control"
    ∷ []

-- `proto` is the byte behind "HTTP/1.".
pub record Header : Type 0 where
  pub h : ℕ → Option Bytes
  pub type : HeadType
  pub proto : ℕ
  pub status : RemoteStatus

-- A new header, and what `clear` makes of one.
abbrev pub new_header : Header
new_header = record {
  h = λ i. none;
  type = invalid;
  proto = b'1';
  status = record { code = minus_one; msg = [] };
}

-- tolower in the C locale, and strcasecmp.
abbrev pub lower : ℕ → ℕ
lower c = if leb b'A' c && leb c b'Z' then c + 32 else c

unfoldable pub same_nocase : Bytes → Bytes → Bool
same_nocase [] [] = true
same_nocase (x ∷ xs) (y ∷ ys) = lower x == lower y && same_nocase xs ys
same_nocase _ _ = false

-- resolvePos, from the place `i` on.
unfoldable pub resolve_from : ℕ → List Bytes → Bytes → ℕ
unfolding same_nocase
resolve_from i [] key = i
resolve_from i (name ∷ names) key =
    let rest = resolve_from (suc i) names key in
    if length key == length name && same_nocase name key then i else rest

unfoldable pub resolve_pos : Bytes → ℕ
unfolding resolve_from head_names
resolve_pos key = resolve_from 0 head_names key

-- The C string that starts a buffer.
unfoldable pub c_str : Bytes → Bytes
c_str [] = []
c_str (c ∷ s) = let rest = c_str s in if c == 0 then [] else c ∷ rest

-- `set` and `del`.
abbrev pub with_field : ℕ → Option Bytes → Header → Header
with_field i v hd = record hd { h = λ j. if j == i then v else hd.h j }

-- The local variables of Load. `exported` is *unkHeaderMap, `none` for a null pointer.
pub record Loading : Type 0 where
  pub first : Bool
  pub last_set : ℕ
  pub header : Header
  pub exported : Option (List (Bytes × Bytes))

-- What Load comes to: a number, or strlen on a null pointer.
pub data Outcome : Type 0 where
  returns : ℤ → Outcome
  null_access : Outcome

-- One turn of the loop: on with the next piece, or out.
pub data Turn : Type 0 where
  on : Loading → Turn
  out : Outcome → Loading → Turn

abbrev pub push_back :
    (Bytes × Bytes) → Option (List (Bytes × Bytes)) → Option (List (Bytes × Bytes))
push_back e none = none
push_back e (some es) = some (es ++ e ∷ [])

abbrev pub has {ℓ} : {A : Type ℓ} → Option A → Bool
has none = false
has (some a) = true

-- A split.Next() that only tells garbage from an unfinished text.
abbrev pub more : Walk → Bool
more w = has (next_by_str crlf w)

unfoldable pub print_fields : ℕ → List Bytes → (ℕ → Option Bytes) → Bytes
print_fields i [] h = []
print_fields i (name ∷ names) h = elim (h i) [
  | none ↦ print_fields (suc i) names h
  | some v ↦ name ++ (codes ": " ++ (v ++ (crlf ++ print_fields (suc i) names h)))
]

-- ToString; `date` is the text of the current time.
unfoldable pub to_string : Bytes → Header → Bytes
unfolding print_fields head_names
to_string date hd =
    codes "HTTP/1."
    ++ (hd.proto ∷ 32 ∷ print_ℤ hd.status.code
        ++ (32 ∷ hd.status.msg
            ++ (crlf
                ++ (print_fields 0 head_names hd.h
                    ++ (codes "Date: " ++ (date ++ (crlf ++ crlf)))))))
