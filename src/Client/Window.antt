-- ===== src/Client/Window.antt =====
-- client/ui/ChatWindow.cpp: what the chat window shows of the effects of the controllers. A chat in
-- the list is its item's data and text; the time in front of a message is left out, and
-- QString::trimmed and QString::fromStdString are parameters.
use cvcn.Common.{
  ℕ, ◌+◌, ◌≤◌, ◌≡◌, refl, arith, Bool, true, false, List, [], ◌∷◌, ◌++◌, Option, none, some, ◌==◌,
  if◌then◌else◌, if_rule,
}
use cvcn.Wire.Bytes.{Bytes}
use cvcn.Wire.Packet.{ChatListEntry}
use cvcn.Client.Controllers.{
  Effect, sent, warning, no_users_found, chat_window_shown, chat_added, chat_list_set, own_message,
  incoming_message,
}

-- `chatsListWidget`, `messageLineEdit`, `searchLineEdit`, `currentChatID_`, and `messagesTextBrowser`
-- with the sender and the text of each message.
pub record ChatWindow : Type 0 where
  pub chats_list : List ChatListEntry
  pub message_line : Bytes
  pub search_line : Bytes
  pub current_chat_id : ℕ
  pub messages : List (Bytes × Bytes)

pub data WindowSignal : Type 0 where
  message_send_requested : ℕ → Bytes → WindowSignal
  find_user_requested : Bytes → WindowSignal
  chat_selected : ℕ → WindowSignal

-- The loop over the items.
unfoldable pub has_chat : ℕ → List ChatListEntry → Bool
has_chat chat_id [] = false
has_chat chat_id (e ∷ rest) =
    let later = has_chat chat_id rest in if e.chat_id == chat_id then true else later

unfoldable pub add_chat : ChatListEntry → ChatWindow → ChatWindow
add_chat e w =
    if has_chat e.chat_id w.chats_list then w else record w { chats_list = w.chats_list ++ e ∷ [] }

unfoldable pub add_chats : (Bytes → Bytes) → List ChatListEntry → ChatWindow → ChatWindow
add_chats from_std_string [] w = w
add_chats from_std_string (e ∷ rest) w =
    add_chats from_std_string rest
      (add_chat (record e { peer_username = from_std_string e.peer_username }) w)

unfoldable pub set_chat_list : (Bytes → Bytes) → List ChatListEntry → ChatWindow → ChatWindow
set_chat_list from_std_string chats w =
    add_chats from_std_string chats (record w { chats_list = [] })

unfoldable pub append_message_in_history : Bytes → Bytes → ChatWindow → ChatWindow
append_message_in_history sender text w = record w { messages = w.messages ++ (sender, text) ∷ [] }

unfoldable pub append_incoming_message : ℕ → Bytes → Bytes → ChatWindow → ChatWindow
append_incoming_message chat_id sender text w =
    if chat_id == w.current_chat_id then append_message_in_history sender text w else w

-- "system" and "Select a chat first".
module _ (trimmed : Bytes → Bytes) (system hint : Bytes) where
  unfoldable pub slot_clicked_send_button : ChatWindow → List WindowSignal × ChatWindow
  slot_clicked_send_button w =
      if w.current_chat_id == 0
      then ([], append_message_in_history system hint w)
      else elim (trimmed w.message_line) [
        | [] ↦ ([], w)
        | c ∷ cs ↦
            (message_send_requested w.current_chat_id (c ∷ cs) ∷ [], record w { message_line = [] })
      ]

  unfoldable pub slot_clicked_find_button : ChatWindow → List WindowSignal × ChatWindow
  slot_clicked_find_button w = elim (trimmed w.search_line) [
    | [] ↦ ([], w)
    | c ∷ cs ↦ (find_user_requested (c ∷ cs) ∷ [], w)
  ]

-- `item` is the current item of the list, if there is one.
unfoldable pub slot_chat_selection_changed :
    Option ChatListEntry → ChatWindow → List WindowSignal × ChatWindow
slot_chat_selection_changed none w = ([], w)
slot_chat_selection_changed (some item) w =
    (chat_selected item.chat_id ∷ [], record w { current_chat_id = item.chat_id; messages = [] })

-- What the window does for an effect; message boxes leave it as it is.
unfoldable pub show : (Bytes → Bytes) → Effect → ChatWindow → ChatWindow
show from_std_string (sent packet) w = w
show from_std_string (warning topic) w = w
show from_std_string no_users_found w = w
show from_std_string chat_window_shown w = w
show from_std_string (chat_added id peer) w =
    add_chat (record { chat_id = id; peer_username = peer }) w
show from_std_string (chat_list_set chats) w = set_chat_list from_std_string chats w
show from_std_string (own_message sender text) w = append_message_in_history sender text w
show from_std_string (incoming_message id sender text) w = append_incoming_message id sender text w

unfoldable pub show_all : (Bytes → Bytes) → List Effect → ChatWindow → ChatWindow
show_all from_std_string [] w = w
show_all from_std_string (e ∷ es) w = show_all from_std_string es (show from_std_string e w)

-- How often a chat is in the list.
abbrev pub count_chat : ℕ → List ChatListEntry → ℕ
count_chat chat_id [] = 0
count_chat chat_id (e ∷ rest) = (if e.chat_id == chat_id then 1 else 0) + count_chat chat_id rest

-- No chat is listed twice.
abbrev pub IsDistinct : ChatWindow → Type 0
IsDistinct w = (k : ℕ) → count_chat k w.chats_list ≤ 1

has_chat_lem :
    (k : ℕ) (chats : List ChatListEntry) → has_chat k chats ≡ false → count_chat k chats ≡ 0
unfolding has_chat
has_chat_lem k [] h = refl
has_chat_lem k (e ∷ rest) h = ground (arith, has_chat_lem k rest)

count_chat-append :
    (k : ℕ) (xs ys : List ChatListEntry)
    → count_chat k (xs ++ ys) ≡ count_chat k xs + count_chat k ys
count_chat-append k [] ys = omega arith
count_chat-append k (e ∷ xs) ys = omega (arith, count_chat-append k xs ys)

add_chat-IsDistinct :
    (e : ChatListEntry) (w : ChatWindow) → IsDistinct w → IsDistinct (add_chat e w)
unfolding add_chat
add_chat-IsDistinct e w h =
    if_rule IsDistinct (has_chat e.chat_id w.chats_list) _ _ (λ there. h)
      (λ fresh k. ground (
        arith,
        h k,
        count_chat-append k w.chats_list (e ∷ []),
        has_chat_lem e.chat_id w.chats_list fresh,
      ))

add_chats-IsDistinct :
    (from_std_string : Bytes → Bytes) (chats : List ChatListEntry) (w : ChatWindow)
    → IsDistinct w
    → IsDistinct (add_chats from_std_string chats w)
unfolding add_chats
add_chats-IsDistinct from_std_string [] w h = h
add_chats-IsDistinct from_std_string (e ∷ rest) w h =
    add_chats-IsDistinct from_std_string rest _ (add_chat-IsDistinct _ w h)

show-IsDistinct :
    (from_std_string : Bytes → Bytes) (e : Effect) (w : ChatWindow)
    → IsDistinct w
    → IsDistinct (show from_std_string e w)
unfolding show set_chat_list append_message_in_history append_incoming_message
show-IsDistinct from_std_string (sent packet) w h = h
show-IsDistinct from_std_string (warning topic) w h = h
show-IsDistinct from_std_string no_users_found w h = h
show-IsDistinct from_std_string chat_window_shown w h = h
show-IsDistinct from_std_string (chat_added id peer) w h = add_chat-IsDistinct _ w h
show-IsDistinct from_std_string (chat_list_set chats) w h =
    add_chats-IsDistinct from_std_string chats _ (λ k. omega arith)
show-IsDistinct from_std_string (own_message sender text) w h = h
show-IsDistinct from_std_string (incoming_message id sender text) w h =
    if_rule IsDistinct (id == w.current_chat_id) _ _ (λ e. h) (λ e. h)

-- Whatever the controllers tell the window, it lists no chat twice.
pub show_all-IsDistinct :
    (from_std_string : Bytes → Bytes) (effects : List Effect) (w : ChatWindow)
    → IsDistinct w
    → IsDistinct (show_all from_std_string effects w)
unfolding show_all
show_all-IsDistinct from_std_string [] w h = h
show_all-IsDistinct from_std_string (e ∷ es) w h =
    show_all-IsDistinct from_std_string es (show from_std_string e w)
      (show-IsDistinct from_std_string e w h)
