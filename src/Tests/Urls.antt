-- ===== src/Tests/Urls.antt =====
-- The theorem about URLs at a concrete input, and what SetHttpUrl and ToURI make of some texts.
use apt_cacher_ng.Escape.{url_unescape}
use apt_cacher_ng.Text.{
  trim_front, find_first_not_of, trim_back_string, find_last_not_of, find, space_chars,
}
use apt_cacher_ng.Text.Decimal.{print_ℤ, read_digits}
use apt_cacher_ng.Base.{◌≡◌, refl, true, false, [], codes, arith, mem_byte, starts_with}
use apt_cacher_ng.Url.{HttpUrl, accepted, out_of_range, refused, set_http_url, to_uri, port_fmt}
use apt_cacher_ng.Url.RoundTrip.{set_http_url-to_uri}
use apt_cacher_ng.Url.Steps.{url_of}

abbrev mirror : HttpUrl
mirror = url_of false (codes "deb.debian.org") 8080 (codes "debian/a b")

ends : mem_byte b'b' space_chars ≡ false
unfolding mem_byte
ends = refl

set_http_url-to_uri_example :
    (set_http_url (to_uri true false mirror) true ≡ accepted mirror)
    × (set_http_url (to_uri false false mirror) false ≡ accepted mirror)
set_http_url-to_uri_example =
    set_http_url-to_uri false b'd' (codes "eb.debian.org") 8080 (codes "debian/a b")
      (
        refl,
        (
          refl,
          (
            refl,
            (
              refl,
              (refl, (refl, (refl, (refl, (refl, (refl, (refl, (refl, (refl, (refl, tt)))))))))),
            ),
          ),
        ),
      )
      (omega arith) refl
      (
        omega arith,
        (
          omega arith,
          (
            omega arith,
            (
              omega arith,
              (
                omega arith,
                (omega arith, (omega arith, (omega arith, (omega arith, (omega arith, tt))))),
              ),
            ),
          ),
        ),
      )
      ends

-- A port from 2 ^ 15 on is printed as a negative number, and that one is cut.
port_cut : port_fmt 40000 ≡ codes "-2553"
unfolding port_fmt print_ℤ
port_cut = refl

port_refused : set_http_url (to_uri false false (record mirror { port = 40000 })) false ≡ refused
unfolding set_http_url to_uri trim_front find_first_not_of trim_back_string find_last_not_of print_ℤ
    mem_byte find starts_with
port_refused = refl

-- An IPv6 address loses its brackets, and its last group is taken for a port.
abbrev loopback : HttpUrl
loopback = record mirror { host = codes "::1"; port = 0 }

bracketed_read : set_http_url (codes "[::1]/debian/a b") false ≡ accepted loopback
unfolding set_http_url trim_front find_first_not_of trim_back_string find_last_not_of mem_byte find
    starts_with
bracketed_read = refl

brackets_lost :
    set_http_url (to_uri false false loopback) false
    ≡ accepted (record mirror { host = codes ":"; port = 1 })
unfolding set_http_url to_uri trim_front find_first_not_of trim_back_string find_last_not_of
    mem_byte find starts_with read_digits url_unescape
brackets_lost = refl

-- A port is cut to 32 bits before it is compared with the limit.
port_wraps :
    set_http_url (codes "http://a:4294967376/") false ≡ accepted (url_of false (codes "a") 80 [])
unfolding set_http_url trim_front find_first_not_of trim_back_string find_last_not_of mem_byte find
    starts_with read_digits url_unescape
port_wraps = refl

host_missing : set_http_url (codes "http://user@/") false ≡ out_of_range
unfolding set_http_url trim_front find_first_not_of trim_back_string find_last_not_of mem_byte find
    starts_with
host_missing = refl

-- Behind a protocol, brackets are not looked for, and a group of the address is taken for a port.
brackets_unseen : set_http_url (codes "http://[::1]/") false ≡ refused
unfolding set_http_url trim_front find_first_not_of trim_back_string find_last_not_of mem_byte find
    starts_with
brackets_unseen = refl
