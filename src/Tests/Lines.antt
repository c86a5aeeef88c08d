-- ===== src/Tests/Lines.antt =====
-- Lines of a client, and the words in them.
use data_agent_demo.Prelude.{
  ◌≤◌, ◌≡◌, ◌↔◌, ◌⊎◌, refl, true, false, some, List, [], ◌∷◌, ◌++◌, arith, length, map,
}
use data_agent_demo.Bytes.{Bytes, codes}
use data_agent_demo.Server.{
  Received, byte, interrupted, closed, Line, max_line, read_line, newline, Sent, took,
  send_interrupted, send_failed, send_all,
}
use data_agent_demo.Server.Lines.{read_line-line, read_line_bounds, send_all_sound, send_all_total}
use data_agent_demo.Session.{split_ws, put_value, is_space}
use data_agent_demo.Session.Words.{AllWords, split_ws-joined, put_value-blanks}

-- "GET" and "\r\n"
abbrev get_line : Bytes
get_line = b'G' ∷ b'E' ∷ b'T' ∷ 13 ∷ []

read_line-line_example :
    read_line (map byte get_line ++ byte newline ∷ closed ∷ [])
    ≡ some (record { okay = true; text = codes "GET"; later = closed ∷ [] })
read_line-line_example =
    read_line-line get_line (closed ∷ []) (λ e. cc, (λ e. cc, (λ e. cc, (λ e. cc, tt))))
      (omega arith)

abbrev short_read : List Received
short_read = byte b'A' ∷ interrupted ∷ byte 10 ∷ []

abbrev short_line : Line
short_line = record { okay = true; text = codes "A"; later = [] }

short_run : read_line short_read ≡ some short_line
unfolding read_line
short_run = refl

read_line_bounds_example :
    (length short_line.text ≤ max_line) × ((short_line.okay ≡ true) ⊎ (short_line.text ≡ []))
read_line_bounds_example = read_line_bounds short_read short_line short_run

abbrev two_sends : List Sent
two_sends = took 2 ∷ send_interrupted ∷ took 9 ∷ []

two_run : send_all (codes "OK\n") two_sends ≡ some (true, codes "OK\n")
unfolding send_all
two_run = refl

send_all_sound_example :
    ((rest : Bytes) × (codes "OK\n" ++ rest ≡ codes "OK\n"))
    × ((true ≡ true) ↔ (codes "OK\n" ≡ codes "OK\n"))
send_all_sound_example = send_all_sound (codes "OK\n") two_sends true (codes "OK\n") two_run

-- A failure behind the second byte.
failed_run : send_all (codes "OK\n") (took 2 ∷ send_failed ∷ []) ≡ some (false, codes "OK")
unfolding send_all
failed_run = refl

abbrev three_sends : List Sent
three_sends = took 1 ∷ send_interrupted ∷ took 1 ∷ took 1 ∷ []

send_all_total_example : send_all (codes "OK\n") three_sends ≡ some (true, codes "OK\n")
send_all_total_example =
    send_all_total (codes "OK\n") three_sends (omega arith, (omega arith, (omega arith, tt)))
      (omega arith)

two_words : AllWords (codes "GET" ∷ codes "k" ∷ [])
unfolding is_space
two_words = ((λ e. cc, (refl, (refl, (refl, tt)))), ((λ e. cc, (refl, tt)), tt))

split_ws-joined_example : split_ws (codes "GET k") ≡ codes "GET" ∷ codes "k" ∷ []
split_ws-joined_example = split_ws-joined (codes "GET" ∷ codes "k" ∷ []) two_words

put_value-blanks_example :
    (put_value (codes "PUT k a b") ≡ codes "a b") × (put_value (codes "PUT  k a b") ≡ codes "k a b")
unfolding is_space
put_value-blanks_example =
    put_value-blanks (codes "PUT") (codes "k") (codes "a b") (refl, (refl, (refl, tt))) (refl, tt)
