-- ===== src/Header/Custom.antt =====
-- header::ExtractCustomHeaders of src/header.cc.
use apt_cacher_ng.Base.{
  ◌-◌, Bool, true, false, ◌||◌, none, some, List, [], ◌∷◌, ◌++◌, Bytes, codes, if◌then◌else◌,
  length, take, null,
}
use apt_cacher_ng.Text.{crlf}
use apt_cacher_ng.Header.{new_header, same_nocase}
use apt_cacher_ng.Header.Lines.{load}

-- tabooHeadersForCaching and tabooHeadersPassThrough.
abbrev pub taboo : Bool → List Bytes
taboo true =
    codes "Host"
    ∷ codes "Cache-Control"
    ∷ codes "Proxy-Authorization"
    ∷ codes "Accept"
    ∷ codes "User-Agent"
    ∷ []
taboo false =
    codes "Host"
    ∷ codes "Cache-Control"
    ∷ codes "Proxy-Authorization"
    ∷ codes "Accept"
    ∷ codes "User-Agent"
    ∷ codes "Accept-Encoding"
    ∷ []

unfoldable pub is_taboo : List Bytes → Bytes → Bool
unfolding same_nocase
is_taboo [] key = false
is_taboo (t ∷ ts) key = same_nocase t key || is_taboo ts key

-- The loop of ExtractCustomHeaders.
unfoldable pub extract : List Bytes → List (Bytes × Bytes) → Bool → Bytes → Bytes
unfolding is_taboo
extract names [] forbidden ret = ret
extract names (([], v) ∷ es) forbidden ret =
    extract names es forbidden
      (if forbidden then ret else take (length ret - 2) ret ++ (32 ∷ v ++ crlf))
extract names ((c ∷ key, v) ∷ es) forbidden ret =
    let bad = is_taboo names (c ∷ key) in
    extract names es bad (if bad then ret else ret ++ (c ∷ key ++ (codes ": " ++ (v ++ crlf))))

unfoldable pub extract_custom_headers : Bytes → Bool → Bytes
unfolding load extract
extract_custom_headers req_head pass_through =
    if null req_head then [] else elim (load req_head (some []) new_header).2 [
      | none ↦ []
      | some es ↦ extract (taboo pass_through) es false []
    ]
