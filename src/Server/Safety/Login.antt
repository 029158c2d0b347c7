-- ===== src/Server/Safety/Login.antt =====
-- Logging in, and what every dispatch keeps.
use cvcn.Common.{
  ℕ, zero, suc, ◌≡◌, ◌≢◌, refl, sym, ◌∙◌, arith, subst, ◌⊎◌, inl, inr, true, false, Option, none,
  some, ◌==◌, Bool-cases,
}
use cvcn.Common.Dict.{Dict, lookup, insert, lookup-insert}
use cvcn.Wire.Bytes.{Bytes}
use cvcn.Wire.Packet.{PacketHeaderRaw, Credentials}
use cvcn.Session.{ClientSession, set_authenticated}
use cvcn.Server.{Server, Repositories, ◌>>=◌, asks, deref, put_session, authenticate}
use cvcn.Server.Registry.{register_user}
use cvcn.Server.Services.{register_session, log_in}
use cvcn.Server.Dispatcher
use cvcn.Server.Dispatcher.{Route, route, handle, dispatch, authenticates}
use cvcn.Server.Safety.{IsLive, RegistryLive, Evolves, Assertion, Returns}
use cvcn.Server.Safety.Handlers.{Returns-handle, Returns-authenticates}

-- The session that is served is live, and so is every registered one.
abbrev pub IsSound : ℕ → Assertion
IsSound session registry heap = IsLive session heap × RegistryLive registry heap

-- Every registered session is live and is the one in which its user is logged in.
abbrev pub IsOwned : Assertion
IsOwned registry heap =
    (u a : ℕ)
    → lookup u registry ≡ some a
    → (s : ClientSession) × (lookup a heap ≡ some s) × (s.user_id ≡ some u)

abbrev pub OwnedLive : ℕ → Assertion
OwnedLive session registry heap = IsLive session heap × IsOwned registry heap

abbrev pub OwnedAnonymous : ℕ → Assertion
OwnedAnonymous session registry heap =
    ((s : ClientSession) × (lookup session heap ≡ some s) × (s.user_id ≡ none))
    × IsOwned registry heap

lookup-insert_self :
    (a : ℕ) (s : ClientSession) (h : Dict ClientSession) → lookup a (insert a s h) ≡ some s
lookup-insert_self a s h = ground (arith, lookup-insert a a s h)

lookup-insert_ne :
    (a b : ℕ) (s : ClientSession) (h : Dict ClientSession)
    → (a == b) ≡ false
    → lookup b (insert a s h) ≡ lookup b h
lookup-insert_ne a b s h e = ground (arith, lookup-insert a b s h)

IsLive-insert :
    (b a : ℕ) (s : ClientSession) (h : Dict ClientSession) → IsLive b h → IsLive b (insert a s h)
IsLive-insert b a s h (t, e) = elim (Bool-cases (a == b)) [
  | inl same ↦ (s, lookup-insert a b s h ∙ rw same)
  | inr other ↦ (t, lookup-insert a b s h ∙ rw other e)
]

-- Whom the registry names after a login: the new session, or somebody it named before.
registered_by :
    (u : Option ℕ) (a j b : ℕ) (r : Dict ℕ)
    → lookup j (register_user u a r) ≡ some b
    → ((u ≡ some j) × (b ≡ a)) ⊎ (lookup j r ≡ some b)
unfolding register_user
registered_by none a j b r e = inr e
registered_by (some zero) a j b r e = inr e
registered_by (some (suc n)) a j b r e = ground (arith, lookup-insert (suc n) j a r)

pub log_in_lem :
    {Db : Type 0} (repo : Repositories Db) (c : Credentials) (session : ℕ) (st : Server Db)
    (s : ClientSession)
    → lookup session st.heap ≡ some s
    → let u = repo.get_user_id c.username st.db in
      log_in repo c session st
      ≡ some (
        tt,
        record st {
          heap = insert session (set_authenticated u c.username s) st.heap;
          registry = register_user u session st.registry;
        },
      )
unfolding log_in authenticate asks deref put_session register_session ◌>>=◌
log_in_lem repo c session st s e = ground arith

-- Logging in writes one object, and leaves its socket alone.
log_in-Evolves :
    {Db : Type 0} (st : Server Db) (session : ℕ) (s : ClientSession) (u : Option ℕ) (name : Bytes)
    (r : Dict ℕ)
    → lookup session st.heap ≡ some s
    → Evolves st
        (record st { heap = insert session (set_authenticated u name s) st.heap; registry = r })
unfolding set_authenticated
log_in-Evolves st session s u name r e = record {
  objects = λ b t et. elim (Bool-cases (session == b)) [
    | inl same ↦ (
      set_authenticated u name s,
      lookup-insert session b (set_authenticated u name s) st.heap ∙ rw same,
      record { descriptor = ground arith; closing = ground arith },
    )
    | inr other ↦ (
      t,
      lookup-insert_ne session b _ st.heap other ∙ et,
      record { descriptor = refl; closing = refl },
    )
  ];
  absent = λ b p. ground (arith, lookup-insert session b (set_authenticated u name s) st.heap);
  dones = λ fd. refl;
}

Route-cases : (r : Route) → (r ≢ authenticates) ⊎ (r ≡ authenticates)
Route-cases Dispatcher.authenticates = inr refl
Route-cases _ = inl (λ e. cc)

IsOwned-RegistryLive : (r : Dict ℕ) (h : Dict ClientSession) → IsOwned r h → RegistryLive r h
IsOwned-RegistryLive r h owned u a e = let (s, alive, own) = owned u a e in (s, alive)

module _ {Db : Type 0} (repo : Repositories Db) (session : ℕ) where
  log_in-IsSound :
      (c : Credentials) → Returns (IsSound session) (IsSound session) (log_in repo c session)
  log_in-IsSound c = record {
    at = λ st v.
        let (s, e) = v.0 in
        let u : Option ℕ = repo.get_user_id c.username st.db in
        (
          tt,
          record st {
            heap = insert session (set_authenticated u c.username s) st.heap;
            registry = register_user u session st.registry;
          },
          log_in_lem repo c session st s e,
          (
            IsLive-insert session session _ st.heap v.0,
            λ j b p. elim (registered_by u session j b st.registry p) [
              | inl (own, here) ↦
                  subst (λ t. IsLive t (insert session (set_authenticated u c.username s) st.heap))
                    (sym here) (IsLive-insert session session _ st.heap v.0)
              | inr old ↦ IsLive-insert b session _ st.heap (v.1 j b old)
            ],
          ),
          log_in-Evolves st session s u c.username _ e,
        );
  }

  -- From an anonymous session: nobody was registered to it before.
  log_in-IsOwned :
      (c : Credentials)
      → Returns (OwnedAnonymous session) (OwnedLive session) (log_in repo c session)
  unfolding set_authenticated
  log_in-IsOwned c = record {
    at = λ st v.
        let (s, e, anonymous) = v.0 in
        let u : Option ℕ = repo.get_user_id c.username st.db in
        let s' : ClientSession = set_authenticated u c.username s in
        (
          tt,
          record st {
            heap = insert session s' st.heap;
            registry = register_user u session st.registry;
          },
          log_in_lem repo c session st s e,
          (
            (s', lookup-insert_self session s' st.heap),
            λ j b p. elim (registered_by u session j b st.registry p) [
              | inl (own, here) ↦ (
                s',
                subst (λ t. lookup t (insert session s' st.heap) ≡ some s') (sym here)
                    (lookup-insert_self session s' st.heap),
                own,
              )
              | inr old ↦
                  let (t, et, ut) = v.1 j b old in
                  elim (Bool-cases (session == b)) [
                    | inl same ↦ absurd (not_anonymous st.heap s t e b j et anonymous ut same)
                    | inr other ↦ (t, lookup-insert_ne session b s' st.heap other ∙ et, ut)
                  ]
            ],
          ),
          log_in-Evolves st session s u c.username _ e,
        );
  }
    where
      not_anonymous :
          (h : Dict ClientSession) (s t : ClientSession)
          → lookup session h ≡ some s
          → (b j : ℕ) → lookup b h ≡ some t
          → s.user_id ≡ none
          → t.user_id ≡ some j
          → (session == b) ≡ true
          → ⊥
      not_anonymous h s t e b j et anonymous ut same = ground arith

  -- If the session that sent the packet and every registered session are live, then a dispatch
  -- returns for every header and body without using a deleted session; it deletes, opens and closes
  -- none, reports no task as done, and leaves the registry with live sessions only.
  pub dispatch-IsSound :
      (header : PacketHeaderRaw) (body : Bytes) (st : Server Db)
      → IsSound session st.registry st.heap
      → (st' : Server Db) × (dispatch repo header body session st ≡ some (tt, st'))
        × IsSound session st'.registry st'.heap
        × Evolves st st'
  unfolding dispatch
  dispatch-IsSound header body st v =
      let (a, st', e, v', k) = (any (route header.type)).at st v in (st', e, v', k)
    where
      P : Assertion
      P = IsSound session

      any : (r : Route) → Returns P P (handle repo r header body session)
      any r = elim (Route-cases r) [
        | inl other ↦
            Returns-handle repo session P (λ _ _ p. p.0) (λ _ _ p. p.1) r header body other
        | inr auth ↦
            subst (λ t. Returns P P (handle repo t header body session)) (sym auth)
              (Returns-authenticates repo session P P (λ _ _ p. p.0) (λ _ _ p. p) log_in-IsSound
                header body)
      ]

  -- If moreover every registered session is the one in which its user is logged in, and the packet
  -- is not a login on a session that is logged in already, then that stays so.
  pub dispatch-IsOwned :
      (header : PacketHeaderRaw) (body : Bytes) (st : Server Db) (s : ClientSession)
      → IsOwned st.registry st.heap
      → lookup session st.heap ≡ some s
      → (s.user_id ≡ none) ⊎ (route header.type ≢ authenticates)
      → (st' : Server Db) × (dispatch repo header body session st ≡ some (tt, st'))
        × IsOwned st'.registry st'.heap
        × Evolves st st'
  unfolding dispatch
  dispatch-IsOwned header body st s owned e may = elim (Route-cases (route header.type)) [
    | inl other ↦ plain other
    | inr auth ↦ elim may [ inl anonymous ↦ login anonymous auth | inr other ↦ absurd (other auth) ]
  ]
    where
      Kept : Type 0
      Kept =
          (st' : Server Db) × (handle repo (route header.type) header body session st
            ≡ some (tt, st'))
          × IsOwned st'.registry st'.heap
          × Evolves st st'

      plain : route header.type ≢ authenticates → Kept
      plain other =
          let (a, st', p, v', k) =
            (Returns-handle repo session (OwnedLive session) (λ _ _ v. v.0)
                (λ r h v. IsOwned-RegistryLive r h v.1) (route header.type) header body other).at
              st ((s, e), owned) in
          (st', p, v'.1, k)

      login : s.user_id ≡ none → route header.type ≡ authenticates → Kept
      login anonymous auth =
          let (a, st', p, v', k) =
            (Returns-authenticates repo session (OwnedAnonymous session) (OwnedLive session)
                (λ _ _ v. v.0) (λ _ _ v. ((v.0.0, v.0.1), v.1)) log_in-IsOwned header body).at
              st ((s, e, anonymous), owned) in
          (st', rw auth p, v'.1, k)
