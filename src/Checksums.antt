-- ===== src/Checksums.antt =====
-- tFingerprint and tRemoteFileInfo of src/csmapping.h and src/csmapping.cc. The digests themselves
-- are library code.
pub mod RoundTrip
use apt_cacher_ng.Base.{
  ℕ, zero, suc, ◌+◌, ◌*◌, ◌/◌, ◌%◌, ◌^◌, Bool, true, false, not, ◌&&◌, ◌||◌, Option, none, some, [],
  ◌∷◌, ◌++◌, Bytes, equal, if◌then◌else◌, ◌==◌, ltb, leb, min, length, take, drop, null, ℤ, pos,
  lt_ℤ, eq_ℤ, minus_one,
}
use apt_cacher_ng.Text.{Walk, view, next_by_chars, space_chars}
use apt_cacher_ng.Text.Decimal.{atoll, print_ℤ}
use apt_cacher_ng.Escape.{cs_ascii_to_bin, bytes_to_hex}
use apt_cacher_ng.Url.{rfind}

-- CSTYPES.
pub data CsType : Type 0 where
  cs_invalid cs_md5 cs_sha1 cs_sha256 cs_sha512 : CsType

abbrev pub code_of : CsType → ℕ
code_of cs_invalid = 0
code_of cs_md5 = 1
code_of cs_sha1 = 2
code_of cs_sha256 = 3
code_of cs_sha512 = 4

-- GuessCStype, whose parameter is an unsigned short.
unfoldable pub guess_cs_type : ℕ → CsType
guess_cs_type n =
    let len = n % 2 ^ 16 in
    if len == 16
    then cs_md5
    else if len == 20
    then cs_sha1
    else if len == 32
    then cs_sha256
    else if len == 64
    then cs_sha512
    else cs_invalid

abbrev pub get_cs_type_len : CsType → ℕ
get_cs_type_len cs_invalid = 0
get_cs_type_len cs_md5 = 16
get_cs_type_len cs_sha1 = 20
get_cs_type_len cs_sha256 = 32
get_cs_type_len cs_sha512 = 64

abbrev pub max_cs_len : ℕ
max_cs_len = 64

-- `csum` is the array of MAXCSLEN bytes.
pub record Fingerprint : Type 0 where
  pub size : ℤ
  pub cs_type : CsType
  pub csum : Bytes

-- The type that a text's length stands for, or a mismatch, as CSTYPE_INVALID.
unfoldable pub cs_type_for : CsType → ℕ → CsType
unfolding guess_cs_type
cs_type_for cs_invalid l = guess_cs_type (l / 2)
cs_type_for wanted l = if l == 2 * get_cs_type_len wanted then wanted else cs_invalid

abbrev converted : CsType → Fingerprint → Option Bytes → Option Fingerprint
converted type f none = none
converted type f (some bs) =
    some (record f { cs_type = type; csum = bs ++ drop (length bs) f.csum })

-- The conversion takes its length as an unsigned short.
abbrev set_typed : CsType → Bytes → Fingerprint → Option Fingerprint
set_typed cs_invalid hex f = none
set_typed type hex f = converted type f (cs_ascii_to_bin (length hex / 2 % 2 ^ 16) hex)

-- SetCs; `none` is false. What a refused text leaves in the object is not recorded.
unfoldable pub set_cs : Bytes → CsType → Fingerprint → Option Fingerprint
unfolding cs_type_for
set_cs hex wanted f =
    let l = length hex in
    if l == 0 || not (l % 2 == 0) then none else set_typed (cs_type_for wanted l) hex f

abbrev sized : Fingerprint → ℤ → Option Fingerprint
sized f n = if lt_ℤ n (pos 0) then none else some (record f { size = n })

abbrev with_size : Option Walk → Option Fingerprint → Option Fingerprint
with_size w none = none
with_size none (some f) = none
with_size (some w) (some f) = sized f (atoll (view w))

abbrev with_sum : Option Walk → CsType → Fingerprint → Option Fingerprint
with_sum none wanted f = none
with_sum (some w) wanted f = with_size (next_by_chars space_chars w) (set_cs (view w) wanted f)

-- Set, from the next two pieces of a splitter.
unfoldable pub set_from : Walk → CsType → Fingerprint → Option Fingerprint
set_from w wanted f = with_sum (next_by_chars space_chars w) wanted f

-- The bytes of the array that count.
abbrev pub digest : Fingerprint → Bytes
digest f = take (get_cs_type_len f.cs_type) f.csum

unfoldable pub get_cs_as_string : Fingerprint → Bytes
get_cs_as_string f = bytes_to_hex (digest f)

-- The conversion to a string.
unfoldable pub fingerprint_text : Fingerprint → Bytes
unfolding get_cs_as_string
fingerprint_text f = get_cs_as_string f ++ (b'_' ∷ print_ℤ f.size)

unfoldable pub invalidate : Fingerprint → Fingerprint
invalidate f = record f { cs_type = cs_invalid; size = minus_one }

-- `memcmp` of as many bytes is negative.
unfoldable pub bytes_less : Bytes → Bytes → Bool
bytes_less (c ∷ s) (d ∷ t) = ltb c d || (c == d && bytes_less s t)
bytes_less [] t = false
bytes_less (c ∷ s) [] = false

-- operator==; both arrays are read as far as the type of the first says.
unfoldable pub same_fingerprint : Fingerprint → Fingerprint → Bool
same_fingerprint a b =
    code_of b.cs_type == code_of a.cs_type
    && eq_ℤ a.size b.size
    && equal (digest a) (take (get_cs_type_len a.cs_type) b.csum)

-- operator<.
unfoldable pub less_fingerprint : Fingerprint → Fingerprint → Bool
unfolding bytes_less
less_fingerprint a b =
    if not (code_of b.cs_type == code_of a.cs_type)
    then ltb (code_of a.cs_type) (code_of b.cs_type)
    else if not (eq_ℤ a.size b.size)
    then lt_ℤ a.size b.size
    else bytes_less (digest a) (take (get_cs_type_len a.cs_type) b.csum)

pub record RemoteFileInfo : Type 0 where
  pub fpr : Fingerprint
  pub directory : Bytes
  pub file_name : Bytes

unfoldable pub set_invalid : RemoteFileInfo → RemoteFileInfo
unfolding invalidate
set_invalid i = record i { fpr = invalidate i.fpr; directory = []; file_name = [] }

unfoldable pub is_usable : RemoteFileInfo → Bool
is_usable i = not (null i.file_name) && not (code_of i.fpr.cs_type == 0) && lt_ℤ (pos 0) i.fpr.size

-- SetFromPath; `none` is false.
unfoldable pub set_from_path : Bytes → Bytes → RemoteFileInfo → Option RemoteFileInfo
set_from_path path base i =
    if null path
    then none
    else some (elim (rfind b'/' path) [
      | none ↦ record i { file_name = path; directory = base }
      | some p ↦ record i { file_name = drop (p + 1) path; directory = base ++ take (p + 1) path }
    ])

-- SetSize, of a text that is no null pointer.
unfoldable pub set_size : Bytes → RemoteFileInfo → Option RemoteFileInfo
set_size text i =
    let l = atoll text in
    if lt_ℤ l (pos 0) then none else some (record i { fpr = record i.fpr { size = l } })
