-- ===== src/Server/Response/Paths.antt =====
-- The path of a file stays within its array, since it stands in a line of less than 1024 bytes.
use my_practise.Base.{
  ℕ, zero, suc, ◌+◌, ◌<◌, ◌≤◌, ◌≡◌, subst, Bool, true, false, List, [], ◌∷◌, ◌++◌, Option, none,
  some, ◌==◌, ltb, Bool-cases, inl, inr, if◌then◌else◌, length, drop, arith,
}
use my_practise.Server.{
  Line, keep, line_feed, at_return, get_line_from, get_line, c_string, strtolower, rest_of_token,
  strtok, same_string, Answer, get, validlen, dispatch, on_method, handle_http_method, request_sz,
  on_line, handle_client_request,
}
use my_practise.Server.Response.{codes, into_array, final_path, without_slash}

-- A line of less than that many bytes.
abbrev Short : ℕ → Line → Type 0
Short n Line.overrun = Unit
Short n Line.missing = Unit
Short n (Line.found bad text) = length text < n

keep-Short : (n c : ℕ) (l : Line) → Short n l → Short (suc n) (keep c l)
unfolding keep
keep-Short n c Line.overrun h = h
keep-Short n c Line.missing h = h
keep-Short n c (Line.found bad text) h = omega arith

at_return-Short :
    (n s : ℕ) (lf : Option Bool) (l : Line) → Short n l → Short (suc n) (at_return s lf l)
unfolding at_return
at_return-Short n s none l h = tt
at_return-Short n s (some true) l h = omega arith
at_return-Short n s (some false) l h = keep-Short n b'\r' l h

if-Short : (n : ℕ) (b : Bool) (k l : Line) → Short n k → Short n l → Short n (if b then k else l)
if-Short n true k l h h' = h
if-Short n false k l h h' = h'

get_line_from-Short : (s : ℕ) (src : List ℕ) (n : ℕ) → Short n (get_line_from s src n)
unfolding get_line_from
get_line_from-Short s src zero = tt
get_line_from-Short s [] (suc n) = tt
get_line_from-Short s (c ∷ r) (suc n) =
    let s' = if c == b' ' then s + 1 else s in
    let l = get_line_from s' r n in
    let h = get_line_from-Short s' r n in
    if-Short (suc n) (c == b'\r') (at_return s' (line_feed r) l) (keep c l)
      (at_return-Short n s' (line_feed r) l h) (keep-Short n c l h)

length-c_string : (s : List ℕ) → length (c_string s) ≤ length s
unfolding c_string
length-c_string [] = omega arith
length-c_string (c ∷ r) = ground (arith, length-c_string r)

length-rest_of_token :
    (s : List ℕ) → (length (rest_of_token s).0 ≤ length s) × (length (rest_of_token s).1 ≤ length s)
unfolding rest_of_token
length-rest_of_token [] = (omega arith, omega arith)
length-rest_of_token (c ∷ r) =
    let ih = length-rest_of_token r in (ground (arith, ih.0), ground (arith, ih.1))

-- A token and what is behind it, both of at most that many bytes.
abbrev Tokens : ℕ → Option (List ℕ × List ℕ) → Type 0
Tokens n none = Unit
Tokens n (some (token, rest)) = (length token ≤ n) × (length rest ≤ n)

Tokens-mono : (n m : ℕ) (t : Option (List ℕ × List ℕ)) → n ≤ m → Tokens n t → Tokens m t
Tokens-mono n m none h x = x
Tokens-mono n m (some (token, rest)) h x = (omega (arith, x.0), omega (arith, x.1))

strtok-Tokens : (s : List ℕ) → Tokens (length s) (strtok s)
unfolding strtok
strtok-Tokens [] = tt
strtok-Tokens (c ∷ r) = elim (Bool-cases (c == b' ')) [
  | inl e ↦
      rw e (Tokens-mono (length r) (length (c ∷ r)) (strtok r) (omega arith) (strtok-Tokens r))
  | inr e ↦ let ih = length-rest_of_token r in rw e (omega (arith, ih.0), omega (arith, ih.1))
]

-- The path of an answer, with the characters in front of it, has at most that many bytes.
abbrev Within : ℕ → Answer → Type 0
Within n (Answer.get_method path) = length path + validlen ≤ n
Within n _ = Unit

length-drop : (k : ℕ) (xs : List ℕ) → k ≤ length xs → length (drop k xs) + k ≤ length xs
length-drop zero xs h = omega arith
length-drop (suc k) [] h = omega arith
length-drop (suc k) (x ∷ xs) h = omega (arith, length-drop k xs (omega arith))

dispatch-Within :
    (n : ℕ) (b : Bool) (t : Option (List ℕ × List ℕ)) → Tokens n t → Within n (dispatch b t)
unfolding dispatch
dispatch-Within n false t h = tt
dispatch-Within n true none h = tt
dispatch-Within n true (some (path, rest)) h = elim (Bool-cases (ltb (length path) validlen)) [
  | inl e ↦ rw e tt
  | inr e ↦ rw e (ground (arith, e, h.0, length-drop validlen path))
]

on_method-Within : (n : ℕ) (t : Option (List ℕ × List ℕ)) → Tokens n t → Within n (on_method t)
unfolding on_method
on_method-Within n none h = tt
on_method-Within n (some (method, rest)) h =
    dispatch-Within n (same_string (strtolower method) get) (strtok rest)
      (Tokens-mono (length rest) n (strtok rest) h.1 (strtok-Tokens rest))

-- The same of what `handle_client_request` gives.
abbrev Bounded : ℕ → Option Answer → Type 0
Bounded n none = Unit
Bounded n (some a) = Within n a

on_line-Bounded : (n : ℕ) (l : Line) → Short n l → Bounded n (on_line l)
unfolding on_line handle_http_method
on_line-Bounded n Line.overrun h = tt
on_line-Bounded n Line.missing h = tt
on_line-Bounded n (Line.found true text) h = tt
on_line-Bounded n (Line.found false text) h = on_method-Within n (strtok (c_string text)) (
    Tokens-mono (length (c_string text)) n (strtok (c_string text))
      (omega (arith, length-c_string text)) (strtok-Tokens (c_string text)))

length-without_slash : (path : List ℕ) → length (without_slash path) ≤ length path
length-without_slash [] = omega arith
length-without_slash (c ∷ cs) = ground arith

into_array-some : (room : ℕ) (str : List ℕ) → length str < room → into_array room str ≡ some str
into_array-some room str h = ground (arith, h)

final_path-some :
    (path : List ℕ)
    → length (without_slash path) < 1018
    → final_path path ≡ some (codes "./src/" ++ without_slash path)
unfolding final_path
final_path-some path h =
    into_array-some 1024 (codes "./src/" ++ without_slash path) (omega (arith, h))

-- Whatever bytes a client sends, the path of the file that they ask for is built within its array,
-- and is the path behind "./src/" without the slash it may begin with.
pub handle_client_request-final_path :
    (bytes path : List ℕ)
    → handle_client_request bytes ≡ some (Answer.get_method path)
    → final_path path ≡ some (codes "./src/" ++ without_slash path)
unfolding handle_client_request get_line
handle_client_request-final_path bytes path e =
    let fits : length path + validlen ≤ request_sz = subst (Bounded request_sz) e (
      on_line-Bounded request_sz (get_line bytes request_sz)
        (get_line_from-Short 0 bytes request_sz)) in
    final_path-some path (omega (arith, fits, length-without_slash path))
