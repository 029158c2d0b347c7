-- ===== src/Server/Safety/Handlers.antt =====
-- The handlers of the services and the dispatcher, followed by the rules of `Server.Safety`.
use cvcn.Common.{
  ℕ, ◌≢◌, refl, inl, inr, Bool, not, List, [], ◌∷◌, ◌++◌, ◌==◌, Bool-cases, Option-cases,
}
use cvcn.Common.Dict.{Dict, lookup}
use cvcn.Wire.Bytes.{Bytes}
use cvcn.Wire.Packet.{PacketHeaderRaw, Credentials, MessageSendData, Payload}
use cvcn.Session.{ClientSession}
use cvcn.Server.{Repositories, M, pure, send_raw_command}
use cvcn.Server.Registry.{find_by_user_id}
use cvcn.Server.Services.{
  is_other, respond, handle_register_request, log_in, handle_auth_request, handle_delete_request,
  handle_find_user_request, create_chat, handle_create_chat_request, handle_chat_list_request,
  deliver, deliver_all, broadcast_to_chat, post, handle_message_send,
}
use cvcn.Server.Dispatcher.{
  Route, checked, handle_connect_request, handle, connects, disconnects, registers, authenticates,
  deletes, finds_user, creates_chat, lists_chats, sends_message, unknown,
}
use cvcn.Server.Safety.{
  IsLive, RegistryLive, Assertion, Returns, Returns-bind, Returns-if, Returns-option, Returns-pure,
  Returns-asks, Returns-updates, Returns-deref, Returns-send_raw, Returns-request_close,
  Evolves-refl, Evolves-push, send_raw_live,
}

Returns-checked :
    {Db A : Type 0} (P Q : Assertion) (parsed : Bool × A) (bad : A → Bool) (m : A → M Db (Unit {0}))
    → ((r : Dict ℕ) (h : Dict ClientSession) → P r h → Q r h)
    → ((a : A) → Returns P Q (m a))
    → Returns P Q (checked parsed bad m)
unfolding checked
Returns-checked P Q (ok, a) bad m weaker rm =
    Returns-if P Q (not ok) _ _ (Returns-pure P Q tt weaker)
      (Returns-if P Q (bad a) _ _ (Returns-pure P Q tt weaker) (rm a))

module _ {Db : Type 0} (repo : Repositories Db) (session : ℕ) (P : Assertion)
    (live : (r : Dict ℕ) (h : Dict ClientSession) → P r h → IsLive session h)
    (registered : (r : Dict ℕ) (h : Dict ClientSession) → P r h → RegistryLive r h) where
  stay_P : (r : Dict ℕ) (h : Dict ClientSession) → P r h → P r h
  stay_P r h p = p

  rest : {A : Type 0} (a : A) → Returns {Db = Db} P P (pure a)
  rest a = Returns-pure P P a stay_P

  Returns-deliver :
      (exclude : ℕ) (packet : Bytes) (user_id : ℕ)
      → Returns P P (deliver repo exclude packet user_id)
  unfolding deliver find_by_user_id
  Returns-deliver exclude packet user_id = record {
    at = λ st v. elim (Bool-cases (user_id == exclude)) [
      | inl own ↦ (tt, st, rw own, v, Evolves-refl st)
      | inr other ↦ elim (Option-cases (lookup user_id st.registry)) [
        | inl e ↦ (tt, st, rw (other, deliver) (rw e), v, Evolves-refl st)
        | inr (a, e) ↦
            let (s, alive) = registered st.registry st.heap v user_id a e in
            (
              tt,
              record st { results = st.results ++ send_raw_command s.file_descriptor packet ∷ [] },
              rw (other, deliver) (rw e (send_raw_live a packet st s alive)),
              v,
              Evolves-push st (send_raw_command s.file_descriptor packet) (λ fd. refl),
            )
      ]
    ];
  }

  Returns-deliver_all :
      (members : List ℕ) (exclude : ℕ) (packet : Bytes)
      → Returns P P (deliver_all repo members exclude packet)
  unfolding deliver_all
  Returns-deliver_all [] exclude packet = (rest _)
  Returns-deliver_all (u ∷ us) exclude packet =
      Returns-bind P P P _ _ (Returns-deliver exclude packet u)
        (λ _. Returns-deliver_all us exclude packet)

  Returns-respond :
      (header : PacketHeaderRaw) (p : Payload) → Returns P P (respond repo header session p)
  unfolding respond
  Returns-respond header p = Returns-send_raw session P live _

  Returns-create_chat : (u : ℕ) (peer : Bytes) → Returns P P (create_chat repo u peer)
  unfolding create_chat
  Returns-create_chat u peer = Returns-bind P P P _ _ (Returns-asks P _) λ found.
      Returns-option P P (is_other found u) _ _ (rest _)
        λ id. Returns-bind P P P _ _ (Returns-updates P _) λ chat_id. rest _

  Returns-post :
      (u : ℕ) (msg : MessageSendData) (s : ClientSession) → Returns P P (post repo u msg s)
  unfolding post broadcast_to_chat
  Returns-post u msg s =
      Returns-bind P P P _ _ (Returns-updates P _) λ saved.
        Returns-bind P P P _ _ (Returns-asks P _) λ members. Returns-deliver_all members u _

  pub Returns-handle :
      (r : Route) (header : PacketHeaderRaw) (body : Bytes)
      → r ≢ authenticates
      → Returns P P (handle repo r header body session)
  unfolding handle handle_connect_request handle_register_request handle_delete_request
      handle_find_user_request handle_create_chat_request handle_chat_list_request
      handle_message_send
  Returns-handle connects header body other =
      Returns-bind P P P _ _ (Returns-deref session P live) λ s. Returns-send_raw session P live _
  Returns-handle disconnects header body other = Returns-request_close session P live
  Returns-handle registers header body other = Returns-checked P P _ _ _ stay_P λ c.
      Returns-bind P P P _ _ (Returns-asks P _) λ exists.
        Returns-bind P P P _ _ (Returns-if P P exists _ _ (rest _) (Returns-updates P _))
          λ success. Returns-respond header _
  Returns-handle authenticates header body other = absurd (other refl)
  Returns-handle deletes header body other =
      Returns-checked P P _ _ _ stay_P
        λ c. Returns-bind P P P _ _ (Returns-updates P _) λ success. Returns-respond header _
  Returns-handle finds_user header body other = Returns-checked P P _ _ _ stay_P λ query.
      Returns-bind P P P _ _ (Returns-deref session P live) λ s.
        Returns-bind P P P _ _ (Returns-option P P s.user_id _ _ (rest _) λ u. Returns-asks P _)
          λ names. Returns-respond header _
  Returns-handle creates_chat header body other = Returns-checked P P _ _ _ stay_P λ peer.
      Returns-bind P P P _ _ (Returns-deref session P live) λ s.
        Returns-bind P P P _ _
          (Returns-option P P s.user_id _ _ (rest _) λ u. Returns-create_chat u peer)
          λ resp. Returns-respond header _
  Returns-handle lists_chats header body other =
      Returns-bind P P P _ _ (Returns-deref session P live) λ s.
        Returns-bind P P P _ _ (Returns-option P P s.user_id _ _ (rest _) λ u. Returns-asks P _)
          λ chats. Returns-respond header _
  Returns-handle sends_message header body other = Returns-checked P P _ _ _ stay_P λ msg.
      Returns-bind P P P _ _ (Returns-deref session P live)
        λ s. Returns-option P P s.user_id _ _ (rest _) λ u. Returns-post u msg s
  Returns-handle unknown header body other = (rest _)

module _ {Db : Type 0} (repo : Repositories Db) (session : ℕ) (P Q : Assertion)
    (live : (r : Dict ℕ) (h : Dict ClientSession) → Q r h → IsLive session h)
    (weaker : (r : Dict ℕ) (h : Dict ClientSession) → P r h → Q r h)
    (logs_in : (c : Credentials) → Returns P Q (log_in repo c session)) where
  pub Returns-authenticates :
      (header : PacketHeaderRaw) (body : Bytes)
      → Returns P Q (handle repo authenticates header body session)
  unfolding handle handle_auth_request respond
  Returns-authenticates header body = Returns-checked P Q _ _ _ weaker λ c.
      Returns-bind P P Q _ _ (Returns-asks P _) λ stored.
        Returns-bind P Q Q _ _ (Returns-if P Q _ _ _ (logs_in c) (Returns-pure P Q _ weaker))
          λ _. Returns-send_raw session Q live _
