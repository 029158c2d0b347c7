-- ===== src/Client/Controllers/Login.antt =====
-- Who the client says is logged in.
use cvcn.Common.{
  ℕ, ◌≡◌, arith, ◌⊎◌, inr, Bool, true, false, not, List, [], ◌∷◌, Option, none, some, if_rule,
}
use cvcn.Wire.Bytes.{Bytes}
use cvcn.Validator.{validate_username, validate_message}
use cvcn.Server.Dispatcher.{bad_credentials}
use cvcn.Client.Protocol
use cvcn.Client.Controllers.{
  authenticating, Socket, offline, online, broken, Effect, Client, tell, send, request,
  is_authenticating, slot_auth_requested, slot_reg_requested, slot_del_requested,
  slot_auth_finished, slot_users_found, slot_chat_created, slot_message_send_requested, receive,
  slot_connected, slot_disconnected, slot_find_user_requested, slot_create_chat_requested,
  slot_about_to_quit, send_on,
}

-- What the user and the connection do.
pub data Input : Type 0 where
  auth_requested reg_requested del_requested : Bytes → Bytes → Input
  message_requested : ℕ → Bytes → Input
  find_user_requested create_chat_requested : Bytes → Input
  signal : Option Bytes → Protocol.Signal → Input
  came_up went_down about_to_quit : Input

unfoldable pub react : Input → Client → Client
react (auth_requested u p) c = slot_auth_requested u p c
react (reg_requested u p) c = slot_reg_requested u p c
react (del_requested u p) c = slot_del_requested u p c
react (message_requested id text) c = slot_message_send_requested id text c
react (find_user_requested query) c = slot_find_user_requested query c
react (create_chat_requested peer) c = slot_create_chat_requested peer c
react (signal chosen s) c = receive chosen s c
react came_up c = slot_connected c
react went_down c = slot_disconnected c
react about_to_quit c = slot_about_to_quit c

unfoldable pub react_all : List Input → Client → Client
react_all [] c = c
react_all (i ∷ is) c = react_all is (react i c)

-- A name that was never set, or that the rules accept.
abbrev pub IsName : Bytes → Type 0
IsName name = (name ≡ []) ⊎ (validate_username name ≡ true)

pub record IsNamed (c : Client) : Type 0 where
  pub known : IsName c.username
  pub pending : IsName c.pending_username
  pub asked : c.state ≡ authenticating → validate_username c.pending_username ≡ true

-- Sending keeps the names, and the state or makes it `disconnected`.
send_on-IsNamed :
    (s : Socket) (packet : Bytes) (c : Client) → IsNamed c → IsNamed (send_on s packet c)
unfolding send_on tell
send_on-IsNamed offline packet c v = record {
  known = v.known;
  pending = v.pending;
  asked = λ e. cc;
}
send_on-IsNamed online packet c v = record { known = v.known; pending = v.pending; asked = v.asked }
send_on-IsNamed broken packet c v = record { known = v.known; pending = v.pending; asked = λ e. cc }

tell-IsNamed : (e : Effect) (c : Client) → IsNamed c → IsNamed (tell e c)
unfolding tell
tell-IsNamed e c v = record { known = v.known; pending = v.pending; asked = v.asked }

request-IsNamed :
    (ask : Protocol.ProtocolClient → Bytes × Protocol.ProtocolClient) (c : Client)
    → IsNamed c
    → IsNamed (request ask c)
unfolding send
request-IsNamed ask c v =
    send_on-IsNamed c.socket (ask c.protocol).0 (record c { protocol = (ask c.protocol).1 })
      (record { known = v.known; pending = v.pending; asked = v.asked })

good_name :
    (u p : Bytes)
    → bad_credentials (record { username = u; password = p }) ≡ false
    → validate_username u ≡ true
unfolding bad_credentials
good_name u p e = ground arith

slot_auth_requested-IsNamed :
    (u p : Bytes) (c : Client) → IsNamed c → IsNamed (slot_auth_requested u p c)
unfolding slot_auth_requested
slot_auth_requested-IsNamed u p c v =
    if_rule IsNamed (is_authenticating c.state) _ _ (λ _. v)
      (λ _.
        if_rule IsNamed (bad_credentials (record { username = u; password = p })) _ _
          (λ _. tell-IsNamed _ c v)
          (λ good.
            request-IsNamed (Protocol.send_auth_request u p)
              (record c { pending_username = u; state = authenticating })
              (record {
                known = v.known;
                pending = inr (good_name u p good);
                asked = λ e. good_name u p good;
              })))

slot_auth_finished-IsNamed :
    (ok : Bool) (c : Client) → IsNamed c → IsNamed (slot_auth_finished ok c)
unfolding slot_auth_finished tell
slot_auth_finished-IsNamed true c v =
    request-IsNamed Protocol.send_chat_list_request _
      (record { known = v.pending; pending = v.pending; asked = λ e. cc })
slot_auth_finished-IsNamed false c v = record {
  known = v.known;
  pending = v.pending;
  asked = λ e. cc;
}

receive-IsNamed :
    (chosen : Option Bytes) (s : Protocol.Signal) (c : Client)
    → IsNamed c
    → IsNamed (receive chosen s c)
unfolding receive slot_users_found slot_chat_created
receive-IsNamed chosen (Protocol.auth_finished ok id) c v = slot_auth_finished-IsNamed ok c v
receive-IsNamed chosen (Protocol.users_found []) c v = tell-IsNamed _ c v
receive-IsNamed none (Protocol.users_found (u ∷ us)) c v = v
receive-IsNamed (some peer) (Protocol.users_found (u ∷ us)) c v =
    request-IsNamed (Protocol.send_create_chat_request peer) c v
receive-IsNamed chosen (Protocol.chat_created ok id peer) c v =
    if_rule IsNamed ok _ _ (λ e. tell-IsNamed _ c v) (λ e. tell-IsNamed _ c v)
receive-IsNamed chosen (Protocol.chat_list_received chats) c v = tell-IsNamed _ c v
receive-IsNamed chosen (Protocol.message_received who id text) c v = tell-IsNamed _ c v
receive-IsNamed chosen _ c v = v

react-IsNamed : (i : Input) (c : Client) → IsNamed c → IsNamed (react i c)
unfolding react slot_reg_requested slot_del_requested slot_message_send_requested
    slot_find_user_requested slot_create_chat_requested slot_connected slot_disconnected
    slot_about_to_quit
react-IsNamed (auth_requested u p) c v = slot_auth_requested-IsNamed u p c v
react-IsNamed (reg_requested u p) c v =
    if_rule IsNamed (bad_credentials (record { username = u; password = p })) _ _
      (λ _. tell-IsNamed _ c v) (λ _. request-IsNamed (Protocol.send_reg_request u p) c v)
react-IsNamed (del_requested u p) c v =
    if_rule IsNamed (bad_credentials (record { username = u; password = p })) _ _
      (λ _. tell-IsNamed _ c v) (λ _. request-IsNamed (Protocol.send_delete_request u p) c v)
react-IsNamed (message_requested id text) c v =
    if_rule IsNamed (not (validate_message text)) _ _ (λ _. tell-IsNamed _ c v)
      (λ _. request-IsNamed (Protocol.send_message id text) _ (tell-IsNamed _ c v))
react-IsNamed (find_user_requested query) c v =
    request-IsNamed (Protocol.send_find_user_request query) c v
react-IsNamed (create_chat_requested peer) c v =
    request-IsNamed (Protocol.send_create_chat_request peer) c v
react-IsNamed (signal chosen s) c v = receive-IsNamed chosen s c v
react-IsNamed came_up c v = record { known = v.known; pending = v.pending; asked = λ e. cc }
react-IsNamed went_down c v = record { known = v.known; pending = v.pending; asked = λ e. cc }
react-IsNamed about_to_quit c v = request-IsNamed Protocol.send_disconnect_request c v

-- Whatever the user, the server and the connection do, the name that the client shows as its own is
-- empty or one that the rules accept, and so is the name of the last login that was asked for;
-- while a login is under way the latter is set.
pub react_all-IsNamed : (is : List Input) (c : Client) → IsNamed c → IsNamed (react_all is c)
unfolding react_all
react_all-IsNamed [] c v = v
react_all-IsNamed (i ∷ is) c v = react_all-IsNamed is (react i c) (react-IsNamed i c v)
