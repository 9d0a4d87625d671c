-- ===== src/Server/Loop/Ownership.antt =====
-- Who owns a client's socket after a completion.
use my_practise.Base.{ℕ, ◌+◌, ◌≡◌, List, [], ◌∷◌, Option, none, some, ◌==◌, if◌then◌else◌}
use mathlib.Core.Option
use my_practise.Server.{Answer}
use my_practise.Server.Loop.{Request, Effect}

abbrev pub socket_of : Request → Option ℕ
socket_of Request.accept = none
socket_of (Request.read s) = some s
socket_of (Request.write s) = some s
socket_of (Request.splice s i u f z) = some s
socket_of (Request.splice_send s i u f z) = some s

abbrev pub same : ℕ → Option ℕ → ℕ
same s none = 0
same s (some t) = if s == t then 1 else 0

-- How often the effects hand the socket on: to a new request on it, or by closing it.
unfoldable pub hand_overs : ℕ → List Effect → ℕ
hand_overs s [] = 0
hand_overs s (Effect.submit r ∷ es) = same s (socket_of r) + hand_overs s es
hand_overs s (Effect.close fd ∷ es) = (if s == fd then 1 else 0) + hand_overs s es
hand_overs s (_ ∷ es) = hand_overs s es

-- Where there are effects, they hand the socket on that many times.
abbrev Hands : ℕ → ℕ → Option (List Effect) → Type 0
Hands s k none = Unit
Hands s k (some es) = hand_overs s es ≡ k

-- How often an answer hands the socket on.
abbrev pub answers : Option Answer → ℕ
answers none = 0
answers (some Answer.null_pointer) = 0
answers (some (Answer.get_method [])) = 2
answers (some _) = 1
