-- ===== src/Server/Loop.antt =====
-- async-server/server/EventLoop.cpp and async-server/server/io_uring_handle.cpp: what the event loop
-- does for one completion, as the list of its effects in order. What the system calls return is an
-- `Outside`; a descriptor is a number.
pub mod Ownership
mod Tests
use my_practise.Base.{
  ◌%◌, ◌^◌, ℕ, zero, suc, ◌+◌, Bool, true, false, List, [], ◌∷◌, ◌++◌, Option, none, some, ◌==◌,
  if◌then◌else◌, length,
}
use mathlib.Core.Option
use my_practise.Server.Response.{final_path, without_slash, handle_http_100, response_ok}
use my_practise.Server.{Answer, handle_client_request}

-- `struct request` with its `event_type`; the descriptors are those in `iov[0]`, in their order.
pub data Request : Type 0 where
  accept : Request
  read : (client_socket : ℕ) → Request
  write : (client_socket : ℕ) → Request
  splice : (client_socket pipe_in pipe_out file_no file_sz : ℕ) → Request
  splice_send : (client_socket pipe_in pipe_out file_no file_sz : ℕ) → Request

-- `cqe->res`
pub data Res : Type 0 where
  negative : Res
  positive : (n : ℕ) → Res
  null : Res

pub data Effect : Type 0 where
  submit : Request → Effect
  close : (fd : ℕ) → Effect
  close_behind : Effect  -- `close` of what is stored behind the three descriptors
  shutdown : (fd : ℕ) → Effect
  free : Effect
  exit : Effect

-- `stat` and `open` of a path.
pub data File : Type 0 where
  absent : File
  unreadable : File
  opened : (file_no size : ℕ) → File

pub record Outside : Type 0 where
  pub file : List ℕ → File
  pub pipe : Option (ℕ × ℕ)  -- the read end and the write end
  pub head_written : Bool  -- whether `write` of the response's head succeeds

abbrev pub add_accept_request : List Effect
add_accept_request = Effect.submit Request.accept ∷ []

abbrev pub add_read_request : ℕ → List Effect
add_read_request client_socket = Effect.submit (Request.read client_socket) ∷ []

abbrev pub add_write_request : ℕ → List Effect
add_write_request client_socket = Effect.submit (Request.write client_socket) ∷ []

unfoldable pub add_splice_request : Option (ℕ × ℕ) → ℕ → ℕ → ℕ → List Effect
add_splice_request none client_socket file_no file_sz = []
add_splice_request (some (fd0, fd1)) client_socket file_no file_sz =
    Effect.submit (Request.splice client_socket fd1 fd0 file_no file_sz) ∷ []

-- `handle_http_404`, `handle_http_100` and `handle_unimplemented_method`: all write one string.
abbrev pub send_static_string_content : ℕ → List Effect
send_static_string_content client_socket = add_write_request client_socket

-- `handle_get_method` behind `final_path`, with the path behind its slash; none is a write behind an
-- array on the stack.
unfoldable pub send_file : Outside → File → List ℕ → List ℕ → ℕ → Option (List Effect)
unfolding add_splice_request handle_http_100 response_ok
send_file o File.absent full path client_socket = some (send_static_string_content client_socket)
send_file o File.unreadable full path client_socket =
    Option.map (λ request. send_static_string_content client_socket)
      (handle_http_100 full client_socket)
send_file o (File.opened file_no st_size) full path client_socket =
    let count = st_size % 2 ^ 32 in
    Option.map
      (λ head.
        (if o.head_written then [] else Effect.close client_socket ∷ [])
        ++ add_splice_request o.pipe client_socket file_no count)
      (response_ok count path)

-- `handle_get_method` once `final_path` is built.
unfoldable pub find_file : Outside → List ℕ → ℕ → Option (List ℕ) → Option (List Effect)
unfolding send_file
find_file o path client_socket none = none
find_file o path client_socket (some full) =
    Option.map
      (λ effects.
        (if length path == 0 then send_static_string_content client_socket else []) ++ effects)
      (send_file o (o.file full) full (without_slash path) client_socket)

unfoldable pub handle_get_method : Outside → List ℕ → ℕ → Option (List Effect)
unfolding find_file final_path
handle_get_method o path client_socket = find_file o path client_socket (final_path path)

-- A handler that uses a null pointer, reads behind its buffer or writes behind an array has no
-- effects.
unfoldable pub answer : Outside → ℕ → Option Answer → Option (List Effect)
unfolding handle_get_method
answer o client_socket none = none
answer o client_socket (some Answer.null_pointer) = none
answer o client_socket (some Answer.http_404) = some (send_static_string_content client_socket)
answer o client_socket (some Answer.unimplemented_method) =
    some (send_static_string_content client_socket)
answer o client_socket (some (Answer.get_method path)) = handle_get_method o path client_socket

-- The body of the loop of `EventLoop::loop`; `bytes` are those that a read left in its buffer.
unfoldable pub complete : Outside → Res → Request → List ℕ → Option (List Effect)
unfolding answer handle_client_request
complete o Res.negative req bytes = some (Effect.exit ∷ [])
complete o (Res.positive n) Request.accept bytes =
    some (add_accept_request ++ add_read_request n ++ Effect.free ∷ [])
complete o Res.null Request.accept bytes =
    some (add_accept_request ++ add_read_request 0 ++ Effect.free ∷ [])
complete o Res.null (Request.read s) bytes = some (Effect.close s ∷ Effect.free ∷ Effect.free ∷ [])
complete o (Res.positive n) (Request.read s) bytes =
    Option.map (λ effects. effects ++ Effect.free ∷ Effect.free ∷ [])
      (answer o s (handle_client_request bytes))
complete o Res.null (Request.splice s i u f z) bytes = some (
    Effect.shutdown s ∷ Effect.close i ∷ Effect.close u ∷ Effect.close f ∷ Effect.close_behind ∷ [])
complete o (Res.positive n) (Request.splice s i u f z) bytes =
    some (Effect.submit (Request.splice_send s i u f z) ∷ [])
complete o (Res.positive n) (Request.splice_send s i u f z) bytes =
    some (Effect.close s ∷ Effect.close i ∷ Effect.close u ∷ Effect.close f ∷ Effect.free ∷ [])
complete o Res.null (Request.splice_send s i u f z) bytes =
    some (Effect.close s ∷ Effect.close i ∷ Effect.close u ∷ Effect.close f ∷ Effect.free ∷ [])
complete o (Res.positive n) (Request.write s) bytes = some (Effect.close s ∷ Effect.free ∷ [])
complete o Res.null (Request.write s) bytes = some (Effect.close s ∷ Effect.free ∷ [])
