-- ===== src/Server/Loop/Tests.antt =====
-- The theorems on the event loop at concrete completions.
use my_practise.Base.{ℕ, true, List, [], ◌∷◌, some}
use my_practise.Server.Loop.{File, Outside}

abbrev outside : Outside
outside = record { file = λ path. File.opened 9 100; pipe = some (5, 6); head_written = true }

-- "GET /?path= 1" and its end: the path is empty.
abbrev no_path : List ℕ
no_path =
    b'G' ∷ b'E' ∷ b'T' ∷ b' ' ∷ b'/' ∷ b'?' ∷ b'p' ∷ b'a' ∷ b't' ∷ b'h' ∷ b'=' ∷ b' ' ∷ b'1' ∷ b'\r'
    ∷ b'\n' ∷ []
