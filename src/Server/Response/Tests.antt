-- ===== src/Server/Response/Tests.antt =====
-- The path of a file.
use my_practise.Base.{ℕ, List, ◌≡◌, refl, ◌++◌, some}
use my_practise.Server.Response.{codes, final_path, without_slash}
use my_practise.Server.Response.Paths.{handle_client_request-final_path}
use my_practise.Server.{handle_client_request}

final_path-run : final_path (codes "/a.html") ≡ some (codes "./src/a.html")
unfolding final_path
final_path-run = refl

-- "GET /?path=/a 1" and its end.
abbrev asks : List ℕ
asks = codes "GET /?path=/a 1\r\n"

handle_client_request-final_path_example :
    final_path (codes "/a") ≡ some (codes "./src/" ++ without_slash (codes "/a"))
unfolding handle_client_request
handle_client_request-final_path_example = handle_client_request-final_path asks (codes "/a") refl
