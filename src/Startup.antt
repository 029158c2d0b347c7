-- ===== src/Startup.antt =====
-- server/app/PortSelector.cpp and server/net/ListeningSocket.cpp. What the system calls and std::stoi
-- answer are parameters.
pub mod Port
pub mod Socket
use cvcn.Common.{
  ℕ, ◌%◌, ◌^◌, Bool, true, false, not, ◌&&◌, List, [], ◌∷◌, Option, none, some, ltb, leb, ◌==◌,
  if◌then◌else◌,
}
use cvcn.Wire.Bytes.{Bytes}
use cvcn.Storage.{ℤ, pos, negsuc, minus_one, low_bits}

-- What one round of the loop of promptForPort meets: whether a shutdown is requested, the line that
-- std::getline gives, none if it fails, whether socket gives a descriptor, and whether bind succeeds
-- on a port as it stands in `sin_port`.
pub record Round : Type 0 where
  pub requested : Bool
  pub line : Option Bytes
  pub socket_opens : Bool
  pub binds : ℕ → Bool

-- What promptForPort does over the rounds: it returns, it calls exit(1), or it still asks.
pub data Prompt : Type 0 where
  returns : ℤ → Prompt
  exits asks_again : Prompt

-- `htons(port)` takes the low 16 bits.
unfoldable pub is_port_free : Round → ℤ → Bool
is_port_free round port = if round.socket_opens then round.binds (low_bits port % 2 ^ 16) else false

-- `!(port < 1 || port > 65535)`
unfoldable pub is_in_range : ℤ → Bool
is_in_range (pos n) = leb 1 n && leb n 65535
is_in_range (negsuc n) = false

-- The port if it is free; the loop goes on if it is none.
unfoldable pub free_port : Round → ℤ → Option ℤ
free_port round port = if is_port_free round port then some port else none

module _ (stoi : Bytes → Option ℤ) (default_port : ℤ) where
  -- A line that is not empty; `stoi` is none where std::stoi throws.
  unfoldable pub read_port : Round → Bytes → Option ℤ
  read_port round line = elim (stoi line) [
    | none ↦ none
    | some port ↦ if is_in_range port then free_port round port else none
  ]

  unfoldable pub choose_port : Round → Bytes → Option ℤ
  choose_port round [] = free_port round default_port
  choose_port round (c ∷ cs) = read_port round (c ∷ cs)

  unfoldable pub prompt_for_port : List Round → Prompt
  prompt_for_port [] = asks_again
  prompt_for_port (round ∷ rest) =
      let later = prompt_for_port rest in
      if round.requested then returns minus_one else elim round.line [
        | none ↦ exits
        | some line ↦ elim (choose_port round line) [ none ↦ later | some port ↦ returns port ]
      ]

-- `serverFileDescriptor_`, none for -1, and the descriptors that are open.
pub record ListeningSocket : Type 0 where
  pub server_file_descriptor : Option ℕ
  pub open_descriptors : List ℕ

-- `close`
unfoldable pub close_descriptor : ℕ → List ℕ → List ℕ
close_descriptor fd [] = []
close_descriptor fd (d ∷ ds) =
    let rest = close_descriptor fd ds in if d == fd then rest else d ∷ rest

unfoldable pub close_socket : ListeningSocket → ListeningSocket
close_socket l = elim l.server_file_descriptor [
  | none ↦ l
  | some fd ↦ record {
    server_file_descriptor = none;
    open_descriptors = close_descriptor fd l.open_descriptors;
  }
]

-- What follows a `socket` that gives `fd`, for what bind and listen answer.
unfoldable pub bind_and_listen : ℕ → Bool → Bool → ListeningSocket → ListeningSocket
bind_and_listen fd binds listens l =
    let opened : ListeningSocket = record {
      server_file_descriptor = some fd;
      open_descriptors = fd ∷ l.open_descriptors;
    } in
    let closed = close_socket opened in
    if not binds then closed else if not listens then closed else opened

-- `socket` gives a descriptor, or none.
unfoldable pub start_listening : Option ℕ → Bool → Bool → ListeningSocket → ListeningSocket
start_listening socket binds listens l =
    let l' = close_socket l in
    elim socket [ none ↦ l' | some fd ↦ bind_and_listen fd binds listens l' ]
