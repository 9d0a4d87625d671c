-- ===== src/Server/Bounds.antt =====
-- The search for the request line stays in the buffer.
use my_practise.Base.{
  ℕ, zero, suc, ◌+◌, ◌<◌, ◌≢◌, refl, Bool, true, false, List, [], ◌∷◌, none, some, ◌==◌,
  if◌then◌else◌, length, arith,
}
use my_practise.Server.{
  Line, keep, line_feed, at_return, get_line_from, get_line, request_sz, on_line,
  handle_client_request,
}

keep-ne-overrun : (c : ℕ) (l : Line) → l ≢ Line.overrun → keep c l ≢ Line.overrun
unfolding keep
keep-ne-overrun c Line.overrun h = λ e. h refl
keep-ne-overrun c Line.missing h = λ e. cc
keep-ne-overrun c (Line.found bad text) h = λ e. cc

at_return-ne-overrun :
    (s : ℕ) (lf : Bool) (l : Line) → l ≢ Line.overrun → at_return s (some lf) l ≢ Line.overrun
unfolding at_return
at_return-ne-overrun s true l h = λ e. cc
at_return-ne-overrun s false l h = keep-ne-overrun b'\r' l h

if_ne :
    (b : Bool) (k l : Line)
    → k ≢ Line.overrun
    → l ≢ Line.overrun
    → (if b then k else l) ≢ Line.overrun
if_ne true k l h h' = h
if_ne false k l h h' = h'

get_line_from-ne-overrun :
    (s : ℕ) (src : List ℕ) (n : ℕ) → n < length src → get_line_from s src n ≢ Line.overrun
unfolding get_line_from line_feed
get_line_from-ne-overrun s src zero h = λ e. cc
get_line_from-ne-overrun s [] (suc n) h = ground (arith, h)
get_line_from-ne-overrun s (c ∷ []) (suc n) h = ground (arith, h)
get_line_from-ne-overrun s (c ∷ d ∷ r) (suc n) h =
    let s' = if c == b' ' then s + 1 else s in
    let l = get_line_from s' (d ∷ r) n in
    let go = get_line_from-ne-overrun s' (d ∷ r) n (omega arith) in
    if_ne (c == b'\r') (at_return s' (some (d == b'\n')) l) (keep c l)
      (at_return-ne-overrun s' (d == b'\n') l go) (keep-ne-overrun c l go)

on_line-ne-none : (l : Line) → l ≢ Line.overrun → on_line l ≢ none
unfolding on_line
on_line-ne-none Line.overrun h = λ e. h refl
on_line-ne-none Line.missing h = λ e. cc
on_line-ne-none (Line.found true text) h = λ e. cc
on_line-ne-none (Line.found false text) h = λ e. cc

-- Whatever a client sends, the search for the line does not read behind a buffer of more than 1024
-- bytes.
pub handle_client_request-ne-none :
    (bytes : List ℕ) → request_sz < length bytes → handle_client_request bytes ≢ none
unfolding handle_client_request get_line
handle_client_request-ne-none bytes h =
    on_line-ne-none (get_line_from 0 bytes request_sz)
      (get_line_from-ne-overrun 0 bytes request_sz h)
