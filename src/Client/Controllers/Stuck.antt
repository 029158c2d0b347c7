-- ===== src/Client/Controllers/Stuck.antt =====
-- A login that is never answered as such.
use cvcn.Common.{◌≡◌, refl, ap, not, List, [], ◌∷◌, Option, none, some, if_rule, All}
use cvcn.Wire.Bytes.{Bytes}
use cvcn.Validator.{validate_message}
use cvcn.Server.Dispatcher.{bad_credentials}
use cvcn.Client.Protocol
use cvcn.Client.Controllers.{
  authenticating, online, Effect, Client, tell, send, send_on, request, is_authenticating,
  slot_auth_requested, slot_reg_requested, slot_del_requested, slot_users_found, slot_chat_created,
  slot_message_send_requested, receive, slot_find_user_requested, slot_create_chat_requested,
  slot_about_to_quit,
}
use cvcn.Client.Controllers.Login.{
  Input, auth_requested, reg_requested, del_requested, message_requested, find_user_requested,
  create_chat_requested, signal, came_up, went_down, about_to_quit, react, react_all,
}

-- No AuthResponse that could be parsed, and no change of the connection.
abbrev pub IsQuiet : Input → Type 0
IsQuiet (signal chosen (Protocol.auth_finished ok id)) = ⊥
IsQuiet came_up = ⊥
IsQuiet went_down = ⊥
IsQuiet _ = Unit {0}

-- A login is under way on a working connection.
abbrev pub IsWaiting : Client → Type 0
IsWaiting c = (c.state ≡ authenticating) × (c.socket ≡ online)

tell-IsWaiting : (e : Effect) (c : Client) → IsWaiting c → IsWaiting (tell e c)
unfolding tell
tell-IsWaiting e c v = v

request-IsWaiting :
    (ask : Protocol.ProtocolClient → Bytes × Protocol.ProtocolClient) (c : Client)
    → IsWaiting c
    → IsWaiting (request ask c)
unfolding send send_on tell
request-IsWaiting ask c (e, up) = rw up (e, refl)

receive-IsWaiting :
    (chosen : Option Bytes) (s : Protocol.Signal) (c : Client)
    → IsQuiet (signal chosen s)
    → IsWaiting c
    → IsWaiting (receive chosen s c)
unfolding receive slot_users_found slot_chat_created
receive-IsWaiting chosen (Protocol.auth_finished ok id) c quiet v = elim quiet [ ]
receive-IsWaiting chosen (Protocol.users_found []) c quiet v = tell-IsWaiting _ c v
receive-IsWaiting none (Protocol.users_found (u ∷ us)) c quiet v = v
receive-IsWaiting (some peer) (Protocol.users_found (u ∷ us)) c quiet v =
    request-IsWaiting (Protocol.send_create_chat_request peer) c v
receive-IsWaiting chosen (Protocol.chat_created ok id peer) c quiet v =
    if_rule IsWaiting ok _ _ (λ e. tell-IsWaiting _ c v) (λ e. tell-IsWaiting _ c v)
receive-IsWaiting chosen (Protocol.chat_list_received chats) c quiet v = tell-IsWaiting _ c v
receive-IsWaiting chosen (Protocol.message_received who id text) c quiet v = tell-IsWaiting _ c v
receive-IsWaiting chosen _ c quiet v = v

react-IsWaiting : (i : Input) (c : Client) → IsQuiet i → IsWaiting c → IsWaiting (react i c)
unfolding react slot_auth_requested slot_reg_requested slot_del_requested
    slot_message_send_requested slot_find_user_requested slot_create_chat_requested
    slot_about_to_quit
react-IsWaiting (auth_requested u p) c quiet (e, up) = rw (e, is_authenticating) (refl, up)
react-IsWaiting (reg_requested u p) c quiet v =
    if_rule IsWaiting (bad_credentials (record { username = u; password = p })) _ _
      (λ _. tell-IsWaiting _ c v) (λ _. request-IsWaiting (Protocol.send_reg_request u p) c v)
react-IsWaiting (del_requested u p) c quiet v =
    if_rule IsWaiting (bad_credentials (record { username = u; password = p })) _ _
      (λ _. tell-IsWaiting _ c v) (λ _. request-IsWaiting (Protocol.send_delete_request u p) c v)
react-IsWaiting (message_requested id text) c quiet v =
    if_rule IsWaiting (not (validate_message text)) _ _ (λ _. tell-IsWaiting _ c v)
      (λ _. request-IsWaiting (Protocol.send_message id text) _ (tell-IsWaiting _ c v))
react-IsWaiting (find_user_requested query) c quiet v =
    request-IsWaiting (Protocol.send_find_user_request query) c v
react-IsWaiting (create_chat_requested peer) c quiet v =
    request-IsWaiting (Protocol.send_create_chat_request peer) c v
react-IsWaiting (signal chosen s) c quiet v = receive-IsWaiting chosen s c quiet v
react-IsWaiting came_up c quiet v = elim quiet [ ]
react-IsWaiting went_down c quiet v = elim quiet [ ]
react-IsWaiting about_to_quit c quiet v = request-IsWaiting Protocol.send_disconnect_request c v

react_all-IsWaiting :
    (is : List Input) (c : Client) → All IsQuiet is → IsWaiting c → IsWaiting (react_all is c)
unfolding react_all
react_all-IsWaiting [] c quiet v = v
react_all-IsWaiting (i ∷ is) c (q, qs) v =
    react_all-IsWaiting is (react i c) qs (react-IsWaiting i c q v)

-- While a login is under way on a working connection and no AuthResponse that can be parsed
-- arrives, be it that a malformed one did, the client keeps waiting whatever the user asks for and
-- whatever else arrives, and every further login request changes nothing.
pub waits_for_ever :
    (is : List Input) (c : Client) (u p : Bytes)
    → All IsQuiet is
    → IsWaiting c
    → ((react_all is c).state ≡ authenticating)
      × (slot_auth_requested u p (react_all is c) ≡ react_all is c)
unfolding slot_auth_requested
waits_for_ever is c u p quiet v =
    let (e, up) = react_all-IsWaiting is c quiet v in (e, rw (ap is_authenticating e) refl)
