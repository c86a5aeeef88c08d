-- ===== src/Server/Listen.antt =====
-- create_listen_socket and run_accept_loop of Server/server.cpp, over what the system calls return.
use Prim.Native.String.{String}
use data_agent_demo.Prelude.{
  ℕ, ◌%◌, ◌≡◌, ◌↔◌, Bool, true, Option, none, some, List, [], ◌∷◌, arith, if◌then◌else◌,
}
use data_agent_demo.Bytes.{Bytes}

-- The system calls: `socket`, and whether `inet_pton` takes the address, `bind` the port and `listen` the backlog.
pub record Calls : Type 0 where
  pub socket : Option ℕ
  pub inet_pton : Bytes → Bool
  pub bind : ℕ → Bool
  pub listen : ℕ → Bool

pub data Opened : Type 0 where
  listening : ℕ → Opened
  runtime_error : String → Opened

-- The result, with the descriptors that were closed.
unfoldable pub create_listen_socket : Calls → Bytes → ℕ → ℕ → Opened × List ℕ
create_listen_socket calls ip port backlog = elim calls.socket [
  | none ↦ (runtime_error "socket() failed", [])
  | some fd ↦
      if calls.inet_pton ip
      then (if calls.bind (port % 65536)
          then (if calls.listen backlog
              then (listening fd, [])
              else (runtime_error "listen() failed", fd ∷ []))
          else (runtime_error "bind() failed", fd ∷ []))
      else (runtime_error "inet_pton() failed", fd ∷ [])
]

-- The descriptors that a socket call opened.
abbrev pub opened : Option ℕ → List ℕ
opened none = []
opened (some fd) = fd ∷ []

-- What is open in the end: nothing closed and the socket returned, or everything closed and an error.
abbrev pub Accounts : Option ℕ → Opened × List ℕ → Type 0
Accounts socket (listening fd, closed) = (socket ≡ some fd) × (closed ≡ [])
Accounts socket (runtime_error what, closed) = closed ≡ opened socket

-- `create_listen_socket` leaks no descriptor: it returns the socket, which is open then, or it throws, with the
-- socket closed once if there is one; and it returns only when all calls succeed.
pub create_listen_socket-Accounts :
    (calls : Calls) (ip : Bytes) (port backlog : ℕ)
    → Accounts calls.socket (create_listen_socket calls ip port backlog)
      × ((fd : ℕ)
          → (create_listen_socket calls ip port backlog ≡ (listening fd, [])) ↔ (
              (calls.socket ≡ some fd)
              × (calls.inet_pton ip ≡ true)
              × (calls.bind (port % 65536) ≡ true)
              × (calls.listen backlog ≡ true)))
unfolding create_listen_socket
create_listen_socket-Accounts calls ip port backlog =
    (ground arith, λ fd. (λ e. ground arith, λ (a, b, c, d). ground arith))

-- What `accept` returned, call by call; after either kind of failure the loop goes on.
pub data Accepted : Type 0 where
  client : ℕ → Accepted
  interrupted failed : Accepted

-- The descriptors whose handlers `run_accept_loop` started, in order; each handler's thread closes its own.
unfoldable pub run_accept_loop : List Accepted → List ℕ
run_accept_loop [] = []
run_accept_loop (client cfd ∷ later) = cfd ∷ run_accept_loop later
run_accept_loop (interrupted ∷ later) = run_accept_loop later
run_accept_loop (failed ∷ later) = run_accept_loop later
