-- ===== src/Server/Tests.antt =====
-- The theorems on requests at concrete bytes.
use my_practise.Base.{
  ℕ, zero, suc, ◌≡◌, ◌≢◌, refl, ap, List, [], ◌∷◌, ◌++◌, none, some, length, arith,
}
use my_practise.Server.{Answer, handle_client_request, same_string, strtolower}
use my_practise.Server.Request.{Word, handle_client_request_line}
use my_practise.Server.Bounds.{handle_client_request-ne-none}

abbrev method : List ℕ
method = b'G' ∷ b'e' ∷ b'T' ∷ []

abbrev target : List ℕ
target = b'/' ∷ b'?' ∷ b'p' ∷ b'a' ∷ b't' ∷ b'h' ∷ b'=' ∷ b'a' ∷ []

method-Word : Word method
method-Word = (
  omega arith,
  omega arith,
  omega arith,
  (omega arith, omega arith, omega arith, (omega arith, omega arith, omega arith, tt)),
)

target-Word : Word target
target-Word = (
  omega arith,
  omega arith,
  omega arith,
  (
    omega arith,
    omega arith,
    omega arith,
    (
      omega arith,
      omega arith,
      omega arith,
      (
        omega arith,
        omega arith,
        omega arith,
        (
          omega arith,
          omega arith,
          omega arith,
          (
            omega arith,
            omega arith,
            omega arith,
            (omega arith, omega arith, omega arith, (omega arith, omega arith, omega arith, tt)),
          ),
        ),
      ),
    ),
  ),
)

handle_client_request_line_example :
    handle_client_request
      (method ++ (b' ' ∷ (target ++ (b' ' ∷ ((b'1' ∷ []) ++ b'\r' ∷ b'\n' ∷ b'H' ∷ [])))))
    ≡ some (Answer.get_method (b'a' ∷ []))
unfolding same_string strtolower
handle_client_request_line_example =
    handle_client_request_line method target (b'1' ∷ []) (b'H' ∷ []) method-Word target-Word
      (omega arith, omega arith, omega arith, tt) (omega arith) (omega arith) (omega arith)

unfoldable zeros : ℕ → List ℕ
zeros zero = []
zeros (suc n) = 0 ∷ zeros n

length-zeros : (n : ℕ) → length (zeros n) ≡ n
unfolding zeros
length-zeros zero = refl
length-zeros (suc n) = ap suc (length-zeros n)

handle_client_request-ne-none_example : handle_client_request (zeros 8192) ≢ none
handle_client_request-ne-none_example =
    handle_client_request-ne-none (zeros 8192) (ground (arith, length-zeros 8192))
