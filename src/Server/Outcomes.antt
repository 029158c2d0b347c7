-- ===== src/Server/Outcomes.antt =====
-- What a login and a message do, exactly.
use cvcn.Common.{
  ℕ, ◌≡◌, refl, sym, ap, ◌∙◌, inl, inr, arith, Bool, true, false, List, [], ◌∷◌, ◌++◌, none, some,
  ◌==◌, if◌then◌else◌, Bool-cases, Option-cases, append-nil, append_assoc, ◌↔◌, ◌⊎◌,
}
use cvcn.Common.Dict.{Dict, lookup, insert, lookup-insert}
use cvcn.Wire.Bytes.{Bytes}
use cvcn.Wire.Packet.{
  PacketHeaderRaw, Credentials, MessageSendData, Payload, auth_response_data, message_receive_data,
}
use cvcn.Wire.Builder.{build_payload}
use cvcn.Session.{ClientSession, set_authenticated}
use cvcn.Server.{
  Server, Repositories, SessionCommand, send_raw_command, ◌>>=◌, pure, asks, updates, deref,
}
use cvcn.Server.Registry.{register_user, find_by_user_id}
use cvcn.Server.Services.{
  same_text, password_hash, is_right_password, respond, log_in, handle_auth_request, deliver,
  deliver_all, broadcast_to_chat, post, handle_message_send,
}
use cvcn.Server.Safety.{RegistryLive, bind-some, send_raw_live}
use cvcn.Server.Safety.Login.{log_in_lem}

pub same_text_iff : (a b : Bytes) → (same_text a b ≡ true) ↔ (a ≡ b)
unfolding same_text
same_text_iff [] [] = (λ e. refl, λ e. refl)
same_text_iff [] (d ∷ ds) = (λ e. cc, λ e. cc)
same_text_iff (c ∷ cs) [] = (λ e. cc, λ e. cc)
same_text_iff (c ∷ cs) (d ∷ ds) =
    let (to, from) = same_text_iff cs ds in (λ e. ground (arith, to), λ e. ground (arith, from))

is_right_password_iff :
    (stored password : Bytes)
    → (is_right_password stored password ≡ true) ↔ (stored ≡ password_hash password)
unfolding is_right_password password_hash
is_right_password_iff [] password = (λ e. cc, λ e. cc)
is_right_password_iff (c ∷ cs) password = same_text_iff (c ∷ cs) _

-- The server after an answer to a login on the session object `s` at `session`.
abbrev pub answered :
    {Db : Type 0}
    → Repositories Db
    → PacketHeaderRaw
    → Credentials
    → ℕ
    → ClientSession
    → Bool
    → Server Db
    → Server Db
answered repo header c session s success st =
    let u = repo.get_user_id c.username st.db in
    let answer =
      send_raw_command s.file_descriptor
        (build_payload header.message_id header.session_id (auth_response_data success)) in
    if success
    then record st {
      heap = insert session (set_authenticated u c.username s) st.heap;
      registry = register_user u session st.registry;
      results = st.results ++ answer ∷ [];
    }
    else record st { results = st.results ++ answer ∷ [] }

module _ {Db : Type 0} (repo : Repositories Db) where
  respond_live :
      (header : PacketHeaderRaw) (session : ℕ) (p : Payload) (st : Server Db) (s : ClientSession)
      → lookup session st.heap ≡ some s
      → respond repo header session p st
        ≡ some (
          tt,
          record st {
            results =
                st.results
                ++ send_raw_command s.file_descriptor
                    (build_payload header.message_id header.session_id p)
                  ∷ [];
          },
        )
  unfolding respond
  respond_live header session p st s e = send_raw_live session _ st s e

  -- A login request on a live session succeeds exactly if the stored hash of the user is the hash of
  -- the password that was sent. Then the session object holds the user and is registered for it, and
  -- the answer is queued; else the answer alone is queued and nothing else changes.
  pub handle_auth_request-outcome :
      (header : PacketHeaderRaw) (c : Credentials) (session : ℕ) (st : Server Db)
      (s : ClientSession)
      → lookup session st.heap ≡ some s
      → (success : Bool) × ((success ≡ true)
          ↔ (repo.get_user_password_hash c.username st.db ≡ password_hash c.password))
        × (handle_auth_request repo header c session st
            ≡ some (tt, answered repo header c session s success st))
  unfolding handle_auth_request asks pure ◌>>=◌ set_authenticated
  handle_auth_request-outcome header c session st s e =
      let stored = repo.get_user_password_hash c.username st.db in
      let u = repo.get_user_id c.username st.db in
      (
        is_right_password stored c.password,
        is_right_password_iff stored c.password,
        elim (Bool-cases (is_right_password stored c.password)) [
          | inl right ↦ rw right (
              bind-some (log_in repo c session) _ st tt _ (log_in_lem repo c session st s e)
              ∙ (respond_live header session (auth_response_data true) _
                  (set_authenticated u c.username s)
                  (ground (
                    arith,
                    lookup-insert session session (set_authenticated u c.username s) st.heap,
                  ))))
          | inr wrong ↦ rw wrong (respond_live header session (auth_response_data false) st s e)
        ],
      )

-- Who gets a packet: each listed user but the excluded one, if a live session is registered for
-- the user, on that session's descriptor.
abbrev pub deliveries : List ℕ → ℕ → Bytes → Dict ℕ → Dict ClientSession → List SessionCommand
deliveries [] exclude packet registry heap = []
deliveries (u ∷ us) exclude packet registry heap =
    let others = deliveries us exclude packet registry heap in
    if u == exclude then others else elim (lookup u registry) [
      | none ↦ others
      | some a ↦ elim (lookup a heap) [
        | none ↦ others
        | some s ↦ send_raw_command s.file_descriptor packet ∷ others
      ]
    ]

module _ {Db : Type 0} (repo : Repositories Db) where
  deliver-skip :
      (exclude : ℕ) (packet : Bytes) (u : ℕ) (st : Server Db)
      → ((u == exclude) ≡ true) ⊎ (lookup u st.registry ≡ none)
      → deliver repo exclude packet u st ≡ some (tt, st)
  unfolding deliver find_by_user_id
  deliver-skip exclude packet u st skip = ground (arith, skip)

  deliver-live :
      (exclude : ℕ) (packet : Bytes) (u a : ℕ) (s : ClientSession) (st : Server Db)
      → (u == exclude) ≡ false
      → lookup u st.registry ≡ some a
      → lookup a st.heap ≡ some s
      → deliver repo exclude packet u st
        ≡ some (
          tt,
          record st { results = st.results ++ send_raw_command s.file_descriptor packet ∷ [] },
        )
  unfolding deliver find_by_user_id
  deliver-live exclude packet u a s st other p e =
      rw (other, deliver) (rw p (send_raw_live a packet st s e))

  deliver_all-deliveries :
      (members : List ℕ) (exclude : ℕ) (packet : Bytes) (st : Server Db)
      → RegistryLive st.registry st.heap
      → deliver_all repo members exclude packet st
        ≡ some (
          tt,
          record st {
            results = st.results ++ deliveries members exclude packet st.registry st.heap;
          },
        )
  unfolding deliver_all pure
  deliver_all-deliveries [] exclude packet st live =
      ap (λ t. some (tt, record st { results = t })) (sym (append-nil st.results))
  deliver_all-deliveries (u ∷ us) exclude packet st live = elim (Bool-cases (u == exclude)) [
    | inl same ↦
        bind-some (deliver repo exclude packet u) _ st tt st
          (deliver-skip exclude packet u st (inl same))
        ∙ deliver_all-deliveries us exclude packet st live
        ∙ rw same refl
    | inr other ↦ elim (Option-cases (lookup u st.registry)) [
      | inl p ↦
          bind-some (deliver repo exclude packet u) _ st tt st
            (deliver-skip exclude packet u st (inr p))
          ∙ deliver_all-deliveries us exclude packet st live
          ∙ rw (other, p) refl
      | inr (a, p) ↦
          let (s, e) = live u a p in
          let command = send_raw_command s.file_descriptor packet in
          let st' : Server Db = record st { results = st.results ++ command ∷ [] } in
          bind-some (deliver repo exclude packet u) _ st tt st'
            (deliver-live exclude packet u a s st other p e)
          ∙ deliver_all-deliveries us exclude packet st' live
          ∙ ap (λ t. some (tt, record st { results = t }))
              (append_assoc st.results (command ∷ []) _)
          ∙ rw (other, p) (rw e refl)
    ]
  ]

  deref_live :
      (session : ℕ) (st : Server Db) (s : ClientSession)
      → lookup session st.heap ≡ some s
      → deref session st ≡ some (s, st)
  unfolding deref
  deref_live session st s e = rw (e, deref) refl

  post-deliveries :
      (msg : MessageSendData) (sender : ℕ) (st : Server Db) (s : ClientSession)
      → RegistryLive st.registry st.heap
      → let db = (repo.save_message msg.chat_id sender msg.text st.db).1 in
        let packet = build_payload 0 0 (
          message_receive_data
            (record { sender_username = s.username; chat_id = msg.chat_id; text = msg.text })) in
        post repo sender msg s st
        ≡ some (
          tt,
          record st {
            db = db;
            results =
                st.results
                ++ deliveries
                    (repo.get_chat_member_ids msg.chat_id db)
                    sender
                    packet
                    st.registry
                    st.heap;
          },
        )
  unfolding post broadcast_to_chat updates asks ◌>>=◌
  post-deliveries msg sender st s live =
      let db = (repo.save_message msg.chat_id sender msg.text st.db).1 in
      deliver_all-deliveries (repo.get_chat_member_ids msg.chat_id db) sender _
        (record st { db = db }) live

  -- When every registered session is live, a message of a logged-in user is handed to the repository
  -- once, and MessageReceive, with the user's name, is queued once for each other member of the chat that has a registered session, in
  -- the order of the members, whether or not the message was saved; nothing else changes.
  pub handle_message_send-deliveries :
      (msg : MessageSendData) (session sender : ℕ) (st : Server Db) (s : ClientSession)
      → lookup session st.heap ≡ some s
      → s.user_id ≡ some sender
      → RegistryLive st.registry st.heap
      → let db = (repo.save_message msg.chat_id sender msg.text st.db).1 in
        let packet = build_payload 0 0 (
          message_receive_data
            (record { sender_username = s.username; chat_id = msg.chat_id; text = msg.text })) in
        handle_message_send repo msg session st
        ≡ some (
          tt,
          record st {
            db = db;
            results =
                st.results
                ++ deliveries
                    (repo.get_chat_member_ids msg.chat_id db)
                    sender
                    packet
                    st.registry
                    st.heap;
          },
        )
  unfolding handle_message_send
  handle_message_send-deliveries msg session sender st s e user live =
      bind-some (deref session) _ st s st (deref_live session st s e)
      ∙ rw user (post-deliveries msg sender st s live)
