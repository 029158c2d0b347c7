-- ===== src/Manager/Invariant.antt =====
-- The invariant of the session manager, and the two changes of a session object.
use cvcn.Common.{
  ℕ, ◌+◌, ◌≤◌, ◌≡◌, false, ◌≢◌, ◌∙◌, arith, inl, inr, List, [], ◌∷◌, ◌++◌, Option, none, some, All,
  ◌==◌, if◌then◌else◌, Bool-cases,
}
use cvcn.Common.Dict.{
  Dict, lookup, insert, erase, lookup-insert, lookup-erase, IsKeyed, erase-IsKeyed,
}
use cvcn.Session.{ClientSession}
use cvcn.Server.{SessionCommand}
use cvcn.Server.Registry.{find_by_user_id, find-unregister}
use cvcn.Server.Safety.{count_done}
use cvcn.Server.Safety.Login.{IsOwned}
use cvcn.Manager.{Job, Manager, flights, put_object, unregister, delete_session}

abbrev pub count_jobs : ℕ → List Job → ℕ
count_jobs fd [] = 0
count_jobs fd (j ∷ js) = (if j.fd == fd then 1 else 0) + count_jobs fd js

pub count_jobs-append :
    (fd : ℕ) (xs ys : List Job) → count_jobs fd (xs ++ ys) ≡ count_jobs fd xs + count_jobs fd ys
count_jobs-append fd [] ys = omega arith
count_jobs-append fd (j ∷ js) ys = omega (arith, count_jobs-append fd js ys)

-- The entry of `fd` holds the job's session.
abbrev pub HasSession : Dict ℕ → Job → Type 0
HasSession sessions j = lookup j.fd sessions ≡ some j.session

-- `todo` are the commands that the main thread has taken from the queue and not run yet.
pub record Inv {Db : Type 0} (todo : List SessionCommand) (m : Manager Db) : Type 0 where
  pub owned : IsOwned m.server.registry m.server.heap
  pub entries :
      (fd a : ℕ)
      → lookup fd m.sessions ≡ some a
      → (s : ClientSession) × (lookup a m.server.heap ≡ some s) × (s.file_descriptor ≡ fd)
  pub served : All (HasSession m.sessions) m.jobs
  pub counted :
      (fd : ℕ)
      → count_jobs fd m.jobs + count_done fd m.server.results + count_done fd todo
        ≡ flights fd m.in_flight
  pub running : m.stopping ≡ false
  pub keyed : IsKeyed m.sessions
  pub held :
      (a : ℕ) (s : ClientSession)
      → lookup a m.server.heap ≡ some s
      → lookup s.file_descriptor m.sessions ≡ some a
  pub idle : (fd : ℕ) → lookup fd m.sessions ≡ none → flights fd m.in_flight ≡ 0
  pub fresh : (a : ℕ) → m.next_address ≤ a → lookup a m.server.heap ≡ none

-- Writing an object that keeps its descriptor and its user.
pub put_object-Inv :
    {Db : Type 0} (todo : List SessionCommand) (m : Manager Db) (a : ℕ) (s s' : ClientSession)
    → Inv todo m
    → lookup a m.server.heap ≡ some s
    → s'.file_descriptor ≡ s.file_descriptor
    → s'.user_id ≡ s.user_id
    → Inv todo (put_object a s' m)
put_object-Inv todo m a s s' v e same_fd same_user = record {
  owned = λ u b p.
      let (t, et, ut) = v.owned u b p in
      elim (Bool-cases (a == b)) [
        | inl same ↦ (s', lookup-insert a b s' m.server.heap ∙ rw same, ground arith)
        | inr other ↦ (t, lookup-insert a b s' m.server.heap ∙ rw other et, ut)
      ];
  entries = λ fd b p.
      let (t, et, ft) = v.entries fd b p in
      elim (Bool-cases (a == b)) [
        | inl same ↦ (s', lookup-insert a b s' m.server.heap ∙ rw same, ground arith)
        | inr other ↦ (t, lookup-insert a b s' m.server.heap ∙ rw other et, ft)
      ];
  served = v.served;
  counted = v.counted;
  running = v.running;
  keyed = v.keyed;
  held = λ b t p. elim (Bool-cases (a == b)) [
    | inl same ↦ ground (arith, lookup-insert a b s' m.server.heap, v.held a s)
    | inr other ↦ v.held b t (ground (arith, lookup-insert a b s' m.server.heap))
  ];
  idle = v.idle;
  fresh = λ b p. ground (arith, lookup-insert a b s' m.server.heap, v.fresh b, v.fresh a);
}

-- No job of `fd` is left.
no_jobs-served :
    (fd : ℕ) (sessions : Dict ℕ) (jobs : List Job)
    → count_jobs fd jobs ≡ 0
    → All (HasSession sessions) jobs
    → All (HasSession (erase fd sessions)) jobs
no_jobs-served fd sessions [] none_left h = tt
no_jobs-served fd sessions (j ∷ js) none_left (h, hs) =
    (ground (arith, lookup-erase fd j.fd sessions), no_jobs-served fd sessions js (ground arith) hs)

-- Whom the registry names after `unregister`: somebody it named before, and not `a` for `u`.
unregistered :
    (u : Option ℕ) (a j b : ℕ) (r : Dict ℕ)
    → lookup j (unregister u a r) ≡ some b
    → (lookup j r ≡ some b) × (u ≡ some j → b ≢ a)
unfolding unregister find_by_user_id
unregistered none a j b r e = (e, λ p. cc)
unregistered (some u) a j b r e =
    (ground (arith, find-unregister u j a r), λ p q. ground (arith, find-unregister u j a r))

flights-erase :
    (fd k : ℕ) (d : Dict ℕ) → flights k (erase fd d) ≡ (if fd == k then 0 else flights k d)
flights-erase fd k d = ground (arith, lookup-erase fd k d)

pub flights-insert :
    (fd k n : ℕ) (d : Dict ℕ) → flights k (insert fd n d) ≡ (if fd == k then n else flights k d)
flights-insert fd k n d = ground (arith, lookup-insert fd k n d)

module _ {Db : Type 0} (todo : List SessionCommand) (m : Manager Db) (fd a : ℕ) (s : ClientSession)
    (v : Inv todo m) (e : lookup fd m.sessions ≡ some a) (es : lookup a m.server.heap ≡ some s)
    (quiet : flights fd m.in_flight ≡ 0) where
  delete_session-IsOwned :
      IsOwned (unregister s.user_id a m.server.registry) (erase a m.server.heap)
  delete_session-IsOwned u b p =
      let (q, gone) = unregistered s.user_id a u b m.server.registry p in
      let (t, et, ut) = v.owned u b q in
      elim (Bool-cases (a == b)) [
        | inl same ↦ absurd (ground (arith, gone, et, es, ut))
        | inr other ↦ (t, lookup-erase a b m.server.heap ∙ rw other et, ut)
      ]

  delete_session-entries :
      (k b : ℕ)
      → lookup k (erase fd m.sessions) ≡ some b
      → (t : ClientSession) × (lookup b (erase a m.server.heap) ≡ some t) × (t.file_descriptor ≡ k)
  delete_session-entries k b p =
      let (s1, es1, fs) = v.entries fd a e in
      let q : lookup k m.sessions ≡ some b = ground (arith, lookup-erase fd k m.sessions) in
      let (t, et, ft) = v.entries k b q in
      elim (Bool-cases (a == b)) [
        | inl same ↦ absurd (ground (arith, lookup-erase fd k m.sessions, es1, fs, et, ft))
        | inr other ↦ (t, lookup-erase a b m.server.heap ∙ rw other et, ft)
      ]

  -- Deleting the session of a descriptor that has no task in flight keeps the invariant.
  pub delete_session-Inv : Inv todo (delete_session fd a s m)
  unfolding delete_session
  delete_session-Inv = record {
    owned = delete_session-IsOwned;
    entries = delete_session-entries;
    served = no_jobs-served fd m.sessions m.jobs (omega (arith, v.counted fd)) v.served;
    counted = λ k. ground (arith, flights-erase fd k m.in_flight, v.counted k, v.counted fd);
    running = v.running;
    keyed = erase-IsKeyed fd m.sessions v.keyed;
    held = λ b t p. ground (
      arith,
      lookup-erase a b m.server.heap,
      lookup-erase fd t.file_descriptor m.sessions,
      v.held b t,
    );
    idle = λ k p.
        ground (arith, flights-erase fd k m.in_flight, lookup-erase fd k m.sessions, v.idle k);
    fresh = λ b p. ground (arith, lookup-erase a b m.server.heap, v.fresh b);
  }
