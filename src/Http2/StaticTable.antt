-- ===== src/Http2/StaticTable.antt =====
-- JKYi/http2/dynamic_table.cc: the table of well-known headers. A `std::string` is the list of its
-- bytes.
use Prim.Native.Char.{code}
use Prim.Native.String.{String}
use jkyi.Base.{ℕ, ◌≡◌, ◌↔◌, refl, arith, Bool, true, false, ◌&&◌, List, [], ◌∷◌, map, ◌==◌, length}

abbrev pub Bytes : Type 0
Bytes = List ℕ

abbrev pub Header : Type 0
Header = Bytes × Bytes

abbrev pub codes : String → Bytes
codes String.[] = []
codes (String.◌∷◌ c s) = code c ∷ codes s

unfoldable pub bytes_eq : Bytes → Bytes → Bool
bytes_eq [] [] = true
bytes_eq [] (y ∷ ys) = false
bytes_eq (x ∷ xs) [] = false
bytes_eq (x ∷ xs) (y ∷ ys) = x == y && bytes_eq xs ys

pub bytes_eq_iff : (xs ys : Bytes) → (bytes_eq xs ys ≡ true) ↔ (xs ≡ ys)
unfolding bytes_eq
bytes_eq_iff [] [] = ground arith
bytes_eq_iff [] (y ∷ ys) = ground arith
bytes_eq_iff (x ∷ xs) [] = ground arith
bytes_eq_iff (x ∷ xs) (y ∷ ys) = ground (arith, bytes_eq_iff xs ys)

-- STATIC_HEADERS
abbrev static_texts : List (String × String)
static_texts =
    ("", "")
    ∷ (":authority", "")
    ∷ (":method", "GET")
    ∷ (":method", "POST")
    ∷ (":path", "/")
    ∷ (":path", "/index.html")
    ∷ (":scheme", "http")
    ∷ (":scheme", "https")
    ∷ (":status", "200")
    ∷ (":status", "204")
    ∷ (":status", "206")
    ∷ (":status", "304")
    ∷ (":status", "400")
    ∷ (":status", "404")
    ∷ (":status", "500")
    ∷ ("accept-charset", "")
    ∷ ("accept-encoding", "gzip, deflate")
    ∷ ("accept-language", "")
    ∷ ("accept-ranges", "")
    ∷ ("accept", "")
    ∷ ("access-control-allow-origin", "")
    ∷ ("age", "")
    ∷ ("allow", "")
    ∷ ("authorization", "")
    ∷ ("cache-control", "")
    ∷ ("content-disposition", "")
    ∷ ("content-encoding", "")
    ∷ ("content-language", "")
    ∷ ("content-length", "")
    ∷ ("content-location", "")
    ∷ ("content-range", "")
    ∷ ("content-type", "")
    ∷ ("cookie", "")
    ∷ ("date", "")
    ∷ ("etag", "")
    ∷ ("expect", "")
    ∷ ("expires", "")
    ∷ ("from", "")
    ∷ ("host", "")
    ∷ ("if-match", "")
    ∷ ("if-modified-since", "")
    ∷ ("if-none-match", "")
    ∷ ("if-range", "")
    ∷ ("if-unmodified-since", "")
    ∷ ("last-modified", "")
    ∷ ("link", "")
    ∷ ("location", "")
    ∷ ("max-forwards", "")
    ∷ ("proxy-authenticate", "")
    ∷ ("proxy-authorization", "")
    ∷ ("range", "")
    ∷ ("referer", "")
    ∷ ("refresh", "")
    ∷ ("retry-after", "")
    ∷ ("server", "")
    ∷ ("set-cookie", "")
    ∷ ("strict-transport-security", "")
    ∷ ("transfer-encoding", "")
    ∷ ("user-agent", "")
    ∷ ("vary", "")
    ∷ ("via", "")
    ∷ ("www-authenticate", "")
    ∷ []

-- `s_static_headers`
unfoldable pub static_headers : List Header
static_headers = map (λ h. (codes h.0, codes h.1)) static_texts

pub length-static_headers : length static_headers ≡ 62
unfolding static_headers
length-static_headers = refl
