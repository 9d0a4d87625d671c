-- ===== src/Server/Setup.antt =====
-- async-server/main.cpp, async-server/include/TcpServer.hpp, async-server/server/TcpServer.cpp and
-- async-server/server/IPV4.cpp: from the arguments to the listening socket. What the system calls return and
-- the conversions of the C library are parameters; none is a failed assert or an exception.
use my_practise.Base.{
  ℕ, ◌-◌, ◌%◌, ◌^◌, ◌<◌, ◌≡◌, refl, Bool, false, not, List, [], ◌∷◌, Option, none, some,
  if◌then◌else◌, ℤ, pos, negsuc, equal_ℤ, is_negative, arith,
}

pub record System : Type 0 where
  pub socket : ℤ
  pub setsockopt : ℤ
  pub bind : ℤ
  pub listen : ℤ
  pub htons : ℕ → ℕ
  pub inet_addr : List ℕ → ℕ
  pub stoi : List ℕ → Option ℤ

-- `sockaddr_in`, of the family AF_INET.
pub record IpV4 : Type 0 where
  pub sin_port : ℕ
  pub s_addr : ℕ

-- The constructor of `IPV4`; `htons` takes 16 bits of its argument.
unfoldable pub make_address : System → List ℕ → ℕ → IpV4
make_address sys ip_address port = record {
  sin_port = sys.htons (port % 2 ^ 16);
  s_addr = sys.inet_addr ip_address;
}

pub record TcpServer : Type 0 where
  pub listener : ℤ
  pub sock_addr : IpV4

-- The constructor of `TcpServer`
unfoldable pub make_server : System → IpV4 → Option TcpServer
make_server sys address =
    if equal_ℤ sys.socket (negsuc 0)
    then none
    else some (record { listener = sys.socket; sock_addr = address })

-- `TcpServer::listen`: whether the address was bound. If it was not, a message is printed, and the call goes on.
unfoldable pub listen_on : System → Option Bool
listen_on sys =
    if is_negative sys.setsockopt
    then none
    else if is_negative sys.listen
    then none
    else some (not (is_negative sys.bind))

-- The conversion of an `int` to `unsigned short int`.
unfoldable pub to_uint16 : ℤ → ℕ
to_uint16 (pos n) = n % 2 ^ 16
to_uint16 (negsuc n) = 2 ^ 16 - 1 - n % 2 ^ 16

-- What `main` starts to serve: the server, its backlog, and whether it is bound to its address.
pub record Serving : Type 0 where
  pub server : TcpServer
  pub backlog : ℤ
  pub bound : Bool

unfoldable pub start_with : System → List ℕ → ℤ → ℤ → Option Serving
unfolding make_address make_server listen_on to_uint16
start_with sys ip port backlog = elim (make_server sys (make_address sys ip (to_uint16 port))) [
  | none ↦ none
  | some server ↦ elim (listen_on sys) [
    | none ↦ none
    | some bound ↦ some (record { server = server; backlog = backlog; bound = bound })
  ]
]

-- `main` with its arguments, the program's name among them.
unfoldable pub server_main : System → List (List ℕ) → Option Serving
unfolding start_with
server_main sys (name ∷ ip ∷ port ∷ backlog ∷ []) = elim (sys.stoi port) [
  | none ↦ none
  | some p ↦ elim (sys.stoi backlog) [ none ↦ none | some b ↦ start_with sys ip p b ]
]
server_main sys _ = none

pub to_uint16-port : (n : ℕ) → n < 2 ^ 16 → to_uint16 (pos n) ≡ n
unfolding to_uint16
to_uint16-port n h = ground arith

-- The server starts although its address could not be bound.
pub start_with-unbound :
    (sys : System) (ip : List ℕ) (port backlog : ℤ) (fd n m e : ℕ)
    → sys.socket ≡ pos fd
    → sys.setsockopt ≡ pos n
    → sys.listen ≡ pos m
    → sys.bind ≡ negsuc e
    → start_with sys ip port backlog
      ≡ some (record {
        server = record { listener = pos fd; sock_addr = make_address sys ip (to_uint16 port) };
        backlog = backlog;
        bound = false;
      })
unfolding start_with
start_with-unbound sys ip port backlog fd n m e h1 h2 h3 h4 = rw (h1, h2, h3, h4) refl
