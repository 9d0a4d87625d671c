-- ===== src/Server.antt =====
-- async-server/server/EventLoop.cpp: what the server makes of the bytes that a client sent:
-- `get_line`, `handle_http_method` and `handle_client_request`. A byte is a number, a string the
-- list of its characters without the final zero.
pub mod Request
pub mod Bounds
pub mod Loop
pub mod Response
pub mod Setup
mod Tests
use my_practise.Base.{
  ℕ, zero, suc, ◌+◌, Bool, true, false, not, ◌&&◌, List, [], ◌∷◌, ◌++◌, map, Option, none, some,
  ◌==◌, ltb, leb, if◌then◌else◌, length, drop,
}

-- The result of `get_line`: a read behind the end of `src`, -1, or 0 (1 if `bad`) with the line in
-- `dest`.
pub data Line : Type 0 where
  overrun : Line
  missing : Line
  found : (bad : Bool) (text : List ℕ) → Line

-- `dest[i] = src[i]` before the rest of the loop.
unfoldable pub keep : ℕ → Line → Line
keep c Line.overrun = Line.overrun
keep c Line.missing = Line.missing
keep c (Line.found bad text) = Line.found bad (c ∷ text)

-- `src[i + 1] == '\n'`
unfoldable pub line_feed : List ℕ → Option Bool
line_feed [] = none
line_feed (d ∷ r) = some (d == b'\n')

unfoldable pub at_return : ℕ → Option Bool → Line → Line
unfolding keep
at_return space_cnt none rest = Line.overrun
at_return space_cnt (some true) rest = Line.found (not (space_cnt == 2)) []
at_return space_cnt (some false) rest = keep b'\r' rest

-- The loop of `get_line`, for the characters from `src + i` and `dest_sz - i`.
unfoldable pub get_line_from : ℕ → List ℕ → ℕ → Line
unfolding at_return line_feed keep
get_line_from space_cnt src zero = Line.missing
get_line_from space_cnt [] (suc n) = Line.overrun
get_line_from space_cnt (c ∷ r) (suc n) =
    let space_cnt' = if c == b' ' then space_cnt + 1 else space_cnt in
    let rest = get_line_from space_cnt' r n in
    if c == b'\r' then at_return space_cnt' (line_feed r) rest else keep c rest

unfoldable pub get_line : List ℕ → ℕ → Line
unfolding get_line_from
get_line src dest_sz = get_line_from 0 src dest_sz

-- A string ends before the first zero.
unfoldable pub c_string : List ℕ → List ℕ
c_string [] = []
c_string (c ∷ r) = let rest = c_string r in if c == 0 then [] else c ∷ rest

unfoldable pub tolower : ℕ → ℕ
tolower c = if leb b'A' c && leb c b'Z' then c + 32 else c

unfoldable pub strtolower : List ℕ → List ℕ
unfolding tolower
strtolower s = map tolower s

-- `strtok_r(s, " ", &saveptr)`: the token and what is behind it, or null.
unfoldable pub rest_of_token : List ℕ → List ℕ × List ℕ
rest_of_token [] = ([], [])
rest_of_token (c ∷ r) =
    let (token, rest) = rest_of_token r in if c == b' ' then ([], r) else (c ∷ token, rest)

unfoldable pub strtok : List ℕ → Option (List ℕ × List ℕ)
unfolding rest_of_token
strtok [] = none
strtok (c ∷ r) =
    let skipped = strtok r in if c == b' ' then skipped else some (rest_of_token (c ∷ r))

-- `strcmp(s, t) == 0`
unfoldable pub same_string : List ℕ → List ℕ → Bool
same_string [] [] = true
same_string [] (d ∷ t) = false
same_string (c ∷ s) [] = false
same_string (c ∷ s) (d ∷ t) = c == d && same_string s t

-- What the server answers: a null pointer is used, or one of the handlers is called.
pub data Answer : Type 0 where
  null_pointer : Answer
  http_404 : Answer
  unimplemented_method : Answer
  get_method : (path : List ℕ) → Answer

abbrev pub get : List ℕ
get = b'g' ∷ b'e' ∷ b't' ∷ []

abbrev pub validlen : ℕ
validlen = 7

-- `handle_http_method` behind the first `strtok_r`.
unfoldable pub dispatch : Bool → Option (List ℕ × List ℕ) → Answer
dispatch false path = Answer.unimplemented_method
dispatch true none = Answer.null_pointer
dispatch true (some (path, rest)) =
    if ltb (length path) validlen then Answer.http_404 else Answer.get_method (drop validlen path)

unfoldable pub on_method : Option (List ℕ × List ℕ) → Answer
unfolding strtok strtolower same_string dispatch
on_method none = Answer.null_pointer
on_method (some (method, rest)) = dispatch (same_string (strtolower method) get) (strtok rest)

unfoldable pub handle_http_method : List ℕ → Answer
unfolding strtok on_method
handle_http_method method_buffer = on_method (strtok method_buffer)

abbrev pub request_sz : ℕ
request_sz = 1024

-- `handle_client_request` for the bytes of `iov[0]`; none is a read behind them.
unfoldable pub on_line : Line → Option Answer
unfolding c_string handle_http_method
on_line Line.overrun = none
on_line Line.missing = some Answer.http_404
on_line (Line.found true text) = some Answer.http_404
on_line (Line.found false text) = some (handle_http_method (c_string text))

unfoldable pub handle_client_request : List ℕ → Option Answer
unfolding get_line on_line
handle_client_request bytes = on_line (get_line bytes request_sz)
