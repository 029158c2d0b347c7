-- ===== src/Client/Dialog.antt =====
-- client/ui/AccountDialog.cpp: the two lines and the three buttons. `react` is what the controllers make
-- of a button's signal.
use cvcn.Common.{◌≡◌, refl, false, [], ◌∷◌, ◌++◌, if◌then◌else◌, Bool-cases, inl, inr}
use cvcn.Wire.Bytes.{Bytes}
use cvcn.Wire.Packet
use cvcn.Wire.Packet.{Credentials, Payload}
use cvcn.Wire.Builder.{build_payload}
use cvcn.Server.Dispatcher.{bad_credentials}
use cvcn.Client.Protocol.{send_payload, send_reg_request, send_auth_request, send_delete_request}
use cvcn.Client.Controllers.{
  Client, Topic, auth, register, delete, Effect, sent, warning, online, tell, send, send_on,
  is_authenticating, slot_auth_requested, slot_reg_requested, slot_del_requested,
}
use cvcn.Client.Controllers.Login.{Input, auth_requested, reg_requested, del_requested, react}

-- The texts of the two lines, `username_` and `password_`.
pub record AccountDialog : Type 0 where
  pub username_line : Bytes
  pub password_line : Bytes
  pub username : Bytes
  pub password : Bytes

abbrev pub take_lines : AccountDialog → AccountDialog
take_lines d = record d { username = d.username_line; password = d.password_line }

unfoldable pub slot_clicked_auth_button : AccountDialog → Input × AccountDialog
slot_clicked_auth_button d = let d' = take_lines d in (auth_requested d'.username d'.password, d')

unfoldable pub slot_clicked_reg_button : AccountDialog → Input × AccountDialog
slot_clicked_reg_button d = let d' = take_lines d in (reg_requested d'.username d'.password, d')

unfoldable pub slot_clicked_del_button : AccountDialog → Input × AccountDialog
slot_clicked_del_button d = let d' = take_lines d in (del_requested d'.username d'.password, d')

-- What the lines hold.
abbrev pub entered : AccountDialog → Credentials
entered d = record { username = d.username_line; password = d.password_line }

-- A warning if the rules refuse the lines, else the packet of the payload.
abbrev pub warned_or_sent : Topic → (Credentials → Payload) → AccountDialog → Client → Effect
warned_or_sent topic payload d c =
    if bad_credentials (entered d)
    then warning topic
    else sent (build_payload c.protocol.message_id c.protocol.session_id (payload (entered d)))

-- On a working connection, and while no login is under way, a click on each of the buttons has one
-- effect: a warning of the button's topic if the rules refuse what the lines hold, else the button's
-- request with it.
pub clicks-effects :
    (d : AccountDialog) (c : Client)
    → c.socket ≡ online
    → is_authenticating c.state ≡ false
    → ((react (slot_clicked_auth_button d).0 c).effects
        ≡ c.effects ++ warned_or_sent auth Packet.auth_request_data d c ∷ [])
      × ((react (slot_clicked_reg_button d).0 c).effects
          ≡ c.effects ++ warned_or_sent register Packet.register_request_data d c ∷ [])
      × ((react (slot_clicked_del_button d).0 c).effects
          ≡ c.effects ++ warned_or_sent delete Packet.delete_request_data d c ∷ [])
unfolding react slot_auth_requested slot_reg_requested slot_del_requested send send_on tell
    send_payload send_reg_request send_auth_request send_delete_request slot_clicked_auth_button
    slot_clicked_reg_button slot_clicked_del_button bad_credentials
clicks-effects d c up idle = elim (Bool-cases (bad_credentials (entered d))) [
  | inl bad ↦ (
    rw (idle, slot_auth_requested) (rw bad refl),
    rw (bad, slot_reg_requested) refl,
    rw (bad, slot_del_requested) refl,
  )
  | inr good ↦ (
    rw (idle, slot_auth_requested) (rw good (rw (up, send_on) refl)),
    rw (good, slot_reg_requested) (rw (up, send_on) refl),
    rw (good, slot_del_requested) (rw (up, send_on) refl),
  )
]
