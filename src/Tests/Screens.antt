-- ===== src/Tests/Screens.antt =====
-- Runs of the controllers.
use cvcn.Common.{◌≡◌, true, refl, inl, none, List, [], ◌∷◌}
use cvcn.Wire.Bytes.{Bytes}
use cvcn.Wire.Packet
use cvcn.Client.Protocol
use cvcn.Client.Controllers.{Client, connected, authenticating, online, slot_auth_requested}
use cvcn.Client.Controllers.Login.{
  Input, auth_requested, message_requested, signal, react_all, IsNamed, react_all-IsNamed,
}
use cvcn.Client.Controllers.Stuck.{waits_for_ever}

-- A client that has just connected.
abbrev fresh : Client
fresh = record {
  state = connected;
  username = [];
  pending_username = [];
  protocol = record { message_id = 0; session_id = 0 };
  socket = online;
  effects = [];
}

abbrev bob : Bytes
bob = b'b' ∷ b'o' ∷ b'b' ∷ []

react_all-IsNamed_example :
    IsNamed
      (react_all (auth_requested bob bob ∷ signal none (Protocol.auth_finished true 4) ∷ []) fresh)
react_all-IsNamed_example =
    react_all-IsNamed (auth_requested bob bob ∷ signal none (Protocol.auth_finished true 4) ∷ [])
      fresh (record { known = inl refl; pending = inl refl; asked = λ e. cc })

-- It has asked for a login, and gets an AuthResponse that does not parse.
abbrev asking : Client
asking = record fresh { state = authenticating; pending_username = bob }

abbrev bad_answer : List Input
bad_answer = signal none (Protocol.bad_packet Packet.auth_response) ∷ message_requested 1 bob ∷ []

waits_for_ever_example :
    ((react_all bad_answer asking).state ≡ authenticating)
    × (slot_auth_requested bob bob (react_all bad_answer asking) ≡ react_all bad_answer asking)
waits_for_ever_example = waits_for_ever bad_answer asking bob bob (tt, (tt, tt)) (refl, refl)
