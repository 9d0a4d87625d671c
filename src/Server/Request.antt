-- ===== src/Server/Request.antt =====
-- The request line, from the bytes to the handler.
use my_practise.Base.{
  ℕ, zero, suc, ◌+◌, ◌-◌, ◌<◌, ◌≡◌, ◌≢◌, refl, sym, ap, ◌∙◌, Bool, true, false, not, List, [], ◌∷◌,
  ◌++◌, none, some, ◌==◌, ltb, if◌then◌else◌, length, append-nil, drop, ne→==, arith,
}
use my_practise.Server.{
  Line, keep, line_feed, at_return, get_line_from, get_line, c_string, strtolower, rest_of_token,
  strtok, same_string, Answer, get, validlen, dispatch, on_method, handle_http_method, request_sz,
  on_line, handle_client_request,
}

-- The characters of a word: no zero, space or carriage return.
abbrev pub Word : List ℕ → Type 0
Word [] = Unit
Word (c ∷ w) = (c ≢ 0) × (c ≢ b' ') × (c ≢ b'\r') × Word w

keep_all : List ℕ → Line → Line
keep_all [] l = l
keep_all (c ∷ w) l = keep c (keep_all w l)

keep_all-found :
    (w : List ℕ) (bad : Bool) (text : List ℕ)
    → keep_all w (Line.found bad text) ≡ Line.found bad (w ++ text)
unfolding keep_all keep
keep_all-found [] bad text = refl
keep_all-found (c ∷ w) bad text = ap (keep c) (keep_all-found w bad text)

get_line-Word :
    (space_cnt n k : ℕ) (w r : List ℕ)
    → n ≡ length w + k
    → Word w
    → get_line_from space_cnt (w ++ r) n ≡ keep_all w (get_line_from space_cnt r k)
unfolding get_line_from keep_all
get_line-Word s n k [] r e h = ap (get_line_from s r) (ground (arith, e))
get_line-Word s zero k (c ∷ w) r e h = ground (arith, e)
get_line-Word s (suc n) k (c ∷ w) r e h =
    rw (ne→== c b' ' h.1, ne→== c b'\r' h.2)
      (ap (keep c) (get_line-Word s n k w r (ground (arith, e)) h.3))

get_line-space :
    (space_cnt n : ℕ) (r : List ℕ)
    → get_line_from space_cnt (b' ' ∷ r) (suc n) ≡ keep b' ' (get_line_from (space_cnt + 1) r n)
unfolding get_line_from
get_line-space s n r = refl

get_line-end :
    (space_cnt n : ℕ) (r : List ℕ)
    → get_line_from space_cnt (b'\r' ∷ b'\n' ∷ r) (suc n) ≡ Line.found (not (space_cnt == 2)) []
unfolding get_line_from at_return line_feed
get_line-end s n r = refl

-- The request line of the words `m`, `t` and `v`, with the bytes behind it.
abbrev pub request_line : List ℕ → List ℕ → List ℕ → List ℕ
request_line m t v = m ++ (b' ' ∷ (t ++ b' ' ∷ v))

words3 :
    (v r : List ℕ) (k : ℕ)
    → Word v
    → get_line_from 2 (v ++ b'\r' ∷ b'\n' ∷ r) (length v + suc k) ≡ Line.found false v
words3 v r k h =
    get_line-Word 2 (length v + suc k) (suc k) v (b'\r' ∷ b'\n' ∷ r) refl h
    ∙ ap (keep_all v) (get_line-end 2 k r)
    ∙ keep_all-found v false []
    ∙ ap (Line.found false) (append-nil v)

words2 :
    (t v r : List ℕ) (k : ℕ)
    → Word t
    → Word v
    → get_line_from 1 (t ++ (b' ' ∷ (v ++ b'\r' ∷ b'\n' ∷ r))) (length t + suc (length v + suc k))
      ≡ Line.found false (t ++ b' ' ∷ v)
unfolding keep
words2 t v r k ht hv =
    get_line-Word 1 (length t + suc (length v + suc k)) (suc (length v + suc k)) t
      (b' ' ∷ (v ++ b'\r' ∷ b'\n' ∷ r)) refl ht
    ∙ ap (keep_all t) (
        get_line-space 1 (length v + suc k) (v ++ b'\r' ∷ b'\n' ∷ r)
        ∙ ap (keep b' ') (words3 v r k hv))
    ∙ keep_all-found t false (b' ' ∷ v)

get_line-request :
    (m t v r : List ℕ) (n k : ℕ)
    → Word m
    → Word t
    → Word v
    → n ≡ length m + suc (length t + suc (length v + suc k))
    → get_line (m ++ (b' ' ∷ (t ++ (b' ' ∷ (v ++ b'\r' ∷ b'\n' ∷ r))))) n
      ≡ Line.found false (request_line m t v)
unfolding get_line keep
get_line-request m t v r n k hm ht hv e =
    get_line-Word 0 n (suc (length t + suc (length v + suc k))) m
      (b' ' ∷ (t ++ (b' ' ∷ (v ++ b'\r' ∷ b'\n' ∷ r)))) e hm
    ∙ ap (keep_all m) (
        get_line-space 0 (length t + suc (length v + suc k))
          (t ++ (b' ' ∷ (v ++ b'\r' ∷ b'\n' ∷ r)))
        ∙ ap (keep b' ') (words2 t v r k ht hv))
    ∙ keep_all-found m false (b' ' ∷ (t ++ b' ' ∷ v))

c_string-Word : (w s : List ℕ) → Word w → c_string (w ++ s) ≡ w ++ c_string s
unfolding c_string
c_string-Word [] s h = refl
c_string-Word (c ∷ w) s h = rw (ne→== c 0 h.0) (ap (λ r. c ∷ r) (c_string-Word w s h.3))

rest_of_token-Word : (w s : List ℕ) → Word w → rest_of_token (w ++ b' ' ∷ s) ≡ (w, s)
unfolding rest_of_token
rest_of_token-Word [] s h = refl
rest_of_token-Word (c ∷ w) s h =
    ap
      (λ q.
        if q
        then ([], w ++ b' ' ∷ s)
        else (c ∷ (rest_of_token (w ++ b' ' ∷ s)).0, (rest_of_token (w ++ b' ' ∷ s)).1))
      (ne→== c b' ' h.1)
    ∙ ap (λ r. (c ∷ r.0, r.1)) (rest_of_token-Word w s h.3)

strtok-Word : (w s : List ℕ) → Word w → 0 < length w → strtok (w ++ b' ' ∷ s) ≡ some (w, s)
unfolding strtok
strtok-Word [] s h l = ground (arith, l)
strtok-Word (c ∷ w) s h l =
    ap (λ q. if q then strtok (w ++ b' ' ∷ s) else some (rest_of_token (c ∷ w ++ b' ' ∷ s)))
      (ne→== c b' ' h.1)
    ∙ ap some (rest_of_token-Word (c ∷ w) s h)

line-c_string :
    (m t v : List ℕ) → Word m → Word t → Word v → c_string (request_line m t v) ≡ request_line m t v
unfolding c_string
line-c_string m t v hm ht hv =
    c_string-Word m (b' ' ∷ (t ++ b' ' ∷ v)) hm
    ∙ ap (λ s. m ++ b' ' ∷ s)
        (c_string-Word t (b' ' ∷ v) ht
          ∙ ap (λ s. t ++ b' ' ∷ s)
              (ap c_string (sym (append-nil v)) ∙ c_string-Word v [] hv ∙ append-nil v))

dispatch-path :
    (is_get : Bool) (t v : List ℕ)
    → dispatch is_get (some (t, v)) ≡ (
        if is_get
        then (if ltb (length t) validlen
            then Answer.http_404
            else Answer.get_method (drop validlen t))
        else Answer.unimplemented_method)
unfolding dispatch
dispatch-path true t v = refl
dispatch-path false t v = refl

answer :
    (m t v : List ℕ)
    → Word m
    → Word t
    → 0 < length m
    → 0 < length t
    → handle_http_method (request_line m t v) ≡ (
        if same_string (strtolower m) get
        then (if ltb (length t) validlen
            then Answer.http_404
            else Answer.get_method (drop validlen t))
        else Answer.unimplemented_method)
unfolding handle_http_method on_method
answer m t v hm ht lm lt =
    ap on_method (strtok-Word m (t ++ b' ' ∷ v) hm lm)
    ∙ ap (dispatch (same_string (strtolower m) get)) (strtok-Word t v ht lt)
    ∙ dispatch-path (same_string (strtolower m) get) t v

-- A request line of three words, which with its end fits 1024 bytes, is answered by its first two:
-- 404 where a GET's target is shorter than seven characters, and else the file behind the first
-- seven; any other method is not implemented. The method's case and what follows the line do not
-- matter.
pub handle_client_request_line :
    (m t v r : List ℕ)
    → Word m
    → Word t
    → Word v
    → 0 < length m
    → 0 < length t
    → length m + length t + length v + 2 < request_sz
    → handle_client_request (m ++ (b' ' ∷ (t ++ (b' ' ∷ (v ++ b'\r' ∷ b'\n' ∷ r)))))
      ≡ some (
          if same_string (strtolower m) get
          then (if ltb (length t) validlen
              then Answer.http_404
              else Answer.get_method (drop validlen t))
          else Answer.unimplemented_method)
unfolding handle_client_request on_line
handle_client_request_line m t v r hm ht hv lm lt fit =
    ap on_line (
      get_line-request m t v r request_sz (request_sz - (length m + length t + length v + 3)) hm ht
        hv (ground (arith, fit)))
    ∙ ap (λ s. some (handle_http_method s)) (line-c_string m t v hm ht hv)
    ∙ ap some (answer m t v hm ht lm lt)

-- A line of a GET and two spaces makes the server use a null pointer.
pub handle_client_request_null :
    (m r : List ℕ)
    → Word m
    → 0 < length m
    → length m + 2 < request_sz
    → same_string (strtolower m) get ≡ true
    → handle_client_request (m ++ (b' ' ∷ b' ' ∷ b'\r' ∷ b'\n' ∷ r)) ≡ some Answer.null_pointer
unfolding handle_client_request on_line handle_http_method on_method dispatch strtok
handle_client_request_null m r hm lm fit e =
    ap on_line (
      get_line-request m [] [] r request_sz (request_sz - (length m + 3)) hm tt tt
        (ground (arith, fit)))
    ∙ ap (λ s. some (handle_http_method s)) (line-c_string m [] [] hm tt tt)
    ∙ ap (λ s. some (on_method s)) (strtok-Word m (b' ' ∷ []) hm lm)
    ∙ ap (λ q. some (dispatch q none)) e
