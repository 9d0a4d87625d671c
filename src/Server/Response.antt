-- ===== src/Server/Response.antt =====
-- async-server/server/EventLoop.cpp: the texts that the server writes, and the path of the file that
-- it looks for.
pub mod Paths
mod Tests
use my_practise.Base.{
  ◌-◌, ◌/◌, ◌%◌, ◌^◌, ℕ, zero, suc, ◌+◌, ◌<◌, ◌≤◌, ◌≡◌, refl, sym, ap, ◌∙◌, Bool, true, false, List,
  [], ◌∷◌, ◌++◌, Option, none, some, ◌==◌, ltb, Bool-cases, ◌⊎◌, inl, inr, if◌then◌else◌, length,
  arith,
}
use Prim.Native.Char.{code}
use Prim.Native.String.{String}

-- The bytes of a text in ASCII.
abbrev pub codes : String → List ℕ
codes String.[] = []
codes (String.◌∷◌ c s) = code c ∷ codes s

-- The request that writes a string; `iov[0]` is its only block.
pub record WriteRequest : Type 0 where
  pub client_socket : ℕ
  pub iovec_count : ℕ
  pub iov_base : List ℕ
  pub iov_len : ℕ

unfoldable pub static_string_request : List ℕ → ℕ → WriteRequest
static_string_request str client_socket = record {
  client_socket = client_socket;
  iovec_count = 1;
  iov_base = str;
  iov_len = length str;
}

abbrev pub response_unimplement : List ℕ
response_unimplement =
    codes "HTTP/1.0 400 Bad Request\r\n"
    ++ (codes "Content-type: text/html\r\n"
        ++ (codes "\r\n"
            ++ (codes "<html><head><title>ZeroHTTPd: Unimplemented</title></head><body>"
                ++ (codes "<h1>Bad Request (Unimplemented)</h1>"
                    ++ (codes
                          "<p>Your client sent a request ZeroHTTPd did not understand and it is "
                        ++ codes "probably not your fault.</p></body></html>\r\n")))))

unfoldable pub handle_unimplemented_method : ℕ → WriteRequest
unfolding static_string_request
handle_unimplemented_method = static_string_request response_unimplement

abbrev pub response_404 : List ℕ
response_404 =
    codes "HTTP/1.0 404 Not Found\r\n"
    ++ (codes "Content-type: text/html\r\n"
        ++ (codes "\r\n"
            ++ (codes "<html><head><title>ZeroHTTPd: Not Found</title></head><body>"
                ++ (codes "<h1>Not Found (404)</h1>"
                    ++ (codes "<p>Your client is asking for an object that was not found on this "
                        ++ codes "server.</p></body></html>\r\n")))))

unfoldable pub handle_http_404 : ℕ → WriteRequest
unfolding static_string_request
handle_http_404 = static_string_request response_404

-- `response_100` in front of its `%s`, and behind.
abbrev pub response_100_head : List ℕ
response_100_head =
    codes "HTTP/1.0 100 Request Success\r\n"
    ++ (codes "Content-type: text/html\r\n" ++ (codes "\r\n" ++ codes "<html><head><title>"))

abbrev pub response_100_tail : List ℕ
response_100_tail =
    codes "</title></head><body>"
    ++ (codes "<h1>Not Found (404)</h1>"
        ++ (codes "<p>Your client is asking for an object that was not found on this "
            ++ codes "server.</p></body></html>\r\n"))

-- A string written into an array of that many bytes with its zero; none is a write behind the array.
abbrev pub into_array : ℕ → List ℕ → Option (List ℕ)
into_array room str = if ltb (length str) room then some str else none

-- `handle_http_100`: `sprintf` into `response[1024]`.
unfoldable pub handle_http_100 : List ℕ → ℕ → Option WriteRequest
unfolding static_string_request
handle_http_100 message client_socket =
    elim (into_array 1024 (response_100_head ++ (message ++ response_100_tail))) [
      | none ↦ none
      | some str ↦ some (static_string_request str client_socket)
    ]

-- `if(path[0] == '/') ++path;`
abbrev pub without_slash : List ℕ → List ℕ
without_slash [] = []
without_slash (c ∷ cs) = if c == b'/' then cs else c ∷ cs

-- `final_path[1024]` of `handle_get_method`.
unfoldable pub final_path : List ℕ → Option (List ℕ)
final_path path = into_array 1024 (codes "./src" ++ (codes "/" ++ without_slash path))

-- `%d` of a number below 10 to that many digits.
unfoldable pub decimal : ℕ → ℕ → List ℕ
decimal zero n = []
decimal (suc digits) n =
    let rest = decimal digits (n / 10) in
    if ltb n 10 then (b'0' + n) ∷ [] else rest ++ (b'0' + n % 10) ∷ []

-- `%d` of an `unsigned`, which is read as an `int`.
abbrev pub as_int : ℕ → List ℕ
as_int count = if ltb count (2 ^ 31) then decimal 10 count else b'-' ∷ decimal 10 (2 ^ 32 - count)

-- The head of the response to a file that was opened: `sprintf` into `buffer[1024]`.
unfoldable pub response_ok : ℕ → List ℕ → Option (List ℕ)
unfolding decimal
response_ok count path = into_array 1024 (
    codes "HTTP/1.0 200 Request OK\r\n"
    ++ (codes "Content-Length: "
        ++ (as_int count
            ++ (codes "\r\n"
                ++ (codes "Content-type: raw\r\n"
                    ++ (codes "Content-Disposition: attachment;filename=\""
                        ++ (path ++ codes "\"\r\n\r\n")))))))
