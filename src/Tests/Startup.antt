-- ===== src/Tests/Startup.antt =====
-- Runs of the dialogue about the port and of the listening socket.
use cvcn.Common.{
  ◌≡◌, refl, arith, true, false, List, [], ◌∷◌, Option, none, some, ◌==◌, if◌then◌else◌,
}
use cvcn.Wire.Bytes.{Bytes}
use cvcn.Storage.{ℤ, pos}
use cvcn.Startup.{
  Round, returns, is_port_free, is_in_range, free_port, read_port, choose_port, prompt_for_port,
  ListeningSocket,
}
use cvcn.Startup.Port.{IsPort, Tells, prompt_for_port-bounds}

-- One digit is a number, other lines throw.
abbrev pub one_digit : Bytes → Option ℤ
one_digit (c ∷ []) = if c == b'0' then some (pos 0) else if c == b'7' then some (pos 7) else none
one_digit line = none

abbrev round_with : Bytes → Round
round_with line = record {
  requested = false;
  line = some line;
  socket_opens = true;
  binds = λ port. port == 7;
}

-- No number, a number out of range, the default port, which is taken, and a free port.
abbrev pub rounds : List Round
rounds =
    round_with (b'x' ∷ []) ∷ round_with (b'0' ∷ []) ∷ round_with [] ∷ round_with (b'7' ∷ []) ∷ []

seventh_port : prompt_for_port one_digit (pos 55550) rounds ≡ returns (pos 7)
unfolding prompt_for_port choose_port read_port free_port is_in_range is_port_free
seventh_port = refl

default_IsPort : IsPort (pos 55550)
default_IsPort = (omega arith, omega arith)

prompt_for_port-bounds_example : Tells rounds (prompt_for_port one_digit (pos 55550) rounds)
prompt_for_port-bounds_example = prompt_for_port-bounds one_digit (pos 55550) rounds default_IsPort

abbrev listening : ListeningSocket
listening = record { server_file_descriptor = some 3; open_descriptors = 3 ∷ [] }
