-- ===== src/Header/Lines.antt =====
-- header::Load of src/header.cc, by lines.
use apt_cacher_ng.Base.{
  ℕ, zero, suc, ◌+◌, ◌-◌, Bool, true, false, not, Option, none, some, List, [], ◌∷◌, ◌++◌, Bytes,
  codes, if◌then◌else◌, ◌==◌, ltb, length, take, drop, starts_with, null, get_elem?, pos, negsuc,
  lt_ℤ, minus_one,
}
use apt_cacher_ng.Text.{
  space_chars, crlf, find, find_first_not_of, trim_front, trim_back, trim_both, Walk, walk_over,
  view, next_by_str,
}
use apt_cacher_ng.Http.{remote_status}
use apt_cacher_ng.Header.{
  HeadType, invalid, head, get, post, connect, answer, headpos_max, headpos_unk_export, Header,
  resolve_pos, c_str, with_field, Loading, Outcome, returns, null_access, Turn, on, out, push_back,
  has, more,
}

-- The request line, or the rest of the status line.
unfoldable pub first_line : Bytes → Loading → Turn
first_line it l = elim l.header.type [
  | answer ↦
      let st = remote_status it minus_one false in
      let l' = record l { header = record l.header { status = st } } in
      if lt_ℤ st.code (pos 0) then out (returns (pos 0)) l' else on (record l' { first = false })
  | _ ↦
      let line = trim_both space_chars it in
      if ltb (length line) 10
      then out (returns (pos 0)) l
      else let hd = record l.header {
        proto = elim (get_elem? line (length line - 1)) [ none ↦ 0 | some c ↦ c ];
      } in
        let url = trim_back space_chars (take (length line - 9) line) in
        (if null url
          then out (returns (pos 0)) (record l { header = hd })
          else on (record l {
            first = false;
            header = record hd { status = record { code = minus_one; msg = url } };
          }))
]

-- Whether trimBoth moves the start of a piece.
unfoldable pub is_continuation : Bytes → Bool
is_continuation it = elim (find_first_not_of space_chars (trim_back space_chars it)) [
  | none ↦ false
  | some p ↦ ltb 0 p
]

unfoldable pub continuation : Bytes → Loading → Turn
unfolding c_str
continuation sv l =
    if l.last_set == headpos_unk_export
    then on (record l { exported = push_back ([], sv) l.exported })
    else if not (l.last_set == headpos_max)
    then elim (l.header.h l.last_set) [
      | none ↦ out null_access l
      | some old ↦
          on (record l { header = with_field l.last_set (some (c_str (old ++ 32 ∷ sv))) l.header })
    ]
    else out (returns (negsuc 1)) l

unfoldable pub field : Bytes → Bytes → Loading → Turn
unfolding c_str
field key value l =
    let i = resolve_pos key in
    if i == headpos_max
    then on (record l {
      last_set = if has l.exported then headpos_unk_export else headpos_max;
      exported = push_back (key, value) l.exported;
    })
    else on (record l {
      last_set = i;
      header = with_field i (if null value then none else some (c_str value)) l.header;
    })

-- A line with a name and a value. `-4` and `-5` are for garbage that is not the text's end.
unfoldable pub named_line : Bool → Bytes → Loading → Turn
unfolding field
named_line more_text sv l = elim (find (codes ":") sv) [
  | none ↦ out (returns (if more_text then negsuc 3 else pos 0)) l
  | some p ↦
      let key = trim_back space_chars (take p sv) in
      let value = trim_front space_chars (drop (p + 1) sv) in
      if null key
      then out (returns (if more_text then negsuc 4 else pos 0)) l
      else field key value l
]

-- The end of the header: `total` is the length of Load's input.
abbrev pub ended : ℕ → Option Walk → Outcome
ended total none = returns (pos 0)
ended total (some w) = returns (pos (total - length w.input))

-- The body of the loop.
unfoldable pub line_turn : ℕ → Walk → Loading → Turn
unfolding first_line is_continuation continuation named_line
line_turn total w l =
    let it = view w in
    if l.first
    then first_line it l
    else if null it
    then out (ended total (next_by_str crlf w)) l
    else if is_continuation it
    then continuation (trim_both space_chars it) l
    else named_line (more w) (trim_both space_chars it) l

-- The loop; `n` bounds the number of pieces.
unfoldable pub load_lines : ℕ → ℕ → Walk → Loading → Outcome × Loading
unfolding line_turn
load_lines zero total w l = (returns (pos 0), l)
load_lines (suc n) total w l = elim (next_by_str crlf w) [
  | none ↦ (returns (pos 0), l)
  | some w' ↦ elim (line_turn total w' l) [ out o l' ↦ (o, l') | on l' ↦ load_lines n total w' l' ]
]

-- The method, or the version of an answer, that the text starts with, and the length of its mark.
unfoldable pub start_type : Bytes → HeadType × ℕ
start_type input =
    if starts_with input (codes "HTTP/1.")
    then (answer, 8)
    else if starts_with input (codes "GET ")
    then (get, 4)
    else if starts_with input (codes "HEAD ")
    then (head, 5)
    else if starts_with input (codes "POST ")
    then (post, 5)
    else if starts_with input (codes "CONNECT ")
    then (connect, 8)
    else (invalid, 0)

abbrev pub is_known : HeadType → Bool
is_known invalid = false
is_known _ = true

abbrev pub proto_of : HeadType → Bytes → ℕ → ℕ
proto_of answer input old = elim (get_elem? input 7) [ none ↦ old | some c ↦ c ]
proto_of _ input old = old

abbrev pub at_start : Option (List (Bytes × Bytes)) → Header → Loading
at_start unk hd = record { first = true; last_set = headpos_max; header = hd; exported = unk }

abbrev pub loaded : Outcome × Loading → Outcome × Header × Option (List (Bytes × Bytes))
loaded (o, l) = (o, l.header, l.exported)

-- Load behind the mark of the first line, `skip` bytes long.
unfoldable pub load_typed :
    HeadType
    → ℕ
    → Bytes
    → Option (List (Bytes × Bytes))
    → Header
    → Outcome × Header × Option (List (Bytes × Bytes))
load_typed type skip input unk hd =
    if not (is_known type)
    then (returns minus_one, hd, unk)
    else loaded (
        load_lines (suc (length input)) (length input) (walk_over (drop skip input))
          (at_start unk hd))

abbrev pub typed : HeadType → Bytes → Header → Header
typed type input hd = record hd { type = type; proto = proto_of type input hd.proto }

-- Load.
unfoldable pub load :
    Bytes
    → Option (List (Bytes × Bytes))
    → Header
    → Outcome × Header × Option (List (Bytes × Bytes))
load input unk hd =
    if ltb (length input) 9
    then (returns (pos 0), hd, unk)
    else let (type, skip) = start_type input in load_typed type skip input unk (typed type input hd)
