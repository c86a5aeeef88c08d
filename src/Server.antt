-- ===== src/Server.antt =====
-- Server/server.cpp: reading a line from a socket and sending a text to it. The results of the system calls
-- come from the outside, as lists of events; `none` is a call that is still waiting when they end.
pub mod Lines
pub mod Listen
use data_agent_demo.Prelude.{
  ℕ, zero, suc, ◌+◌, ◌*◌, ◌-◌, ◌≡◌, Bool, true, false, Option, none, some, List, [], ◌∷◌, ◌++◌, ltb,
  ◌==◌, if◌then◌else◌, length, take, drop, min,
}
use data_agent_demo.Bytes.{Bytes}

-- The results of `recv (fd, &c, 1, 0)`: a byte, the peer's close, a failure by EINTR, any other failure.
pub data Received : Type 0 where
  byte : ℕ → Received
  closed interrupted failed : Received

-- The result of `read_line`: `ok`, the text, and the events that are left.
pub record Line : Type 0 where
  pub okay : Bool
  pub text : Bytes
  pub later : List Received

abbrev pub newline : ℕ
newline = 10

abbrev pub carriage_return : ℕ
carriage_return = 13

abbrev pub max_line : ℕ
max_line = 64 * 1024

abbrev no_line : List Received → Option Line
no_line later = some (record { okay = false; text = []; later = later })

-- the text with one more byte, unless the byte is '\r'
abbrev pub push : Bytes → ℕ → Bytes
push out c = if c == carriage_return then out else out ++ c ∷ []

-- the loop of `read_line`, with the text so far
unfoldable pub read_on : Bytes → List Received → Option Line
read_on out [] = none
read_on out (closed ∷ later) = no_line later
read_on out (interrupted ∷ later) = read_on out later
read_on out (failed ∷ later) = no_line later
read_on out (byte c ∷ later) =
    let rest = read_on (push out c) later in
    if c == newline
    then some (record { okay = true; text = out; later = later })
    else if ltb max_line (length (push out c))
    then no_line later
    else rest

unfoldable pub read_line : List Received → Option Line
unfolding read_on
read_line events = read_on [] events

-- The results of `send`: how many bytes it took, a failure by EINTR, any other failure.
pub data Sent : Type 0 where
  took : ℕ → Sent
  send_interrupted send_failed : Sent

-- The loop of `send_all`: `sent` is its counter, and `out` is what the peer has been sent so far. A call gets
-- the bytes behind the first `sent` ones, and takes at most as many as it is given, from their front. The results
-- are what the loop returns and all that has gone out.
unfoldable pub send_on : Bytes → ℕ → Bytes → List Sent → Option (Bool × Bytes)
send_on text sent out [] = if ltb sent (length text) then none else some (true, out)
send_on text sent out (took k ∷ later) =
    let n : ℕ = min k (length text - sent) in
    let rest = send_on text (sent + n) (out ++ take n (drop sent text)) later in
    if ltb sent (length text) then rest else some (true, out)
send_on text sent out (send_interrupted ∷ later) =
    let rest = send_on text sent out later in
    if ltb sent (length text) then rest else some (true, out)
send_on text sent out (send_failed ∷ later) =
    if ltb sent (length text) then some (false, out) else some (true, out)

unfoldable pub send_all : Bytes → List Sent → Option (Bool × Bytes)
unfolding send_on
send_all text events = send_on text 0 [] events
