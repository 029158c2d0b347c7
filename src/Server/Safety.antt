-- ===== src/Server/Safety.antt =====
-- The rules by which the handlers are followed: what a call on the server needs, and what it leaves.
pub mod Handlers
pub mod Login
use cvcn.Common.{
  ℕ, zero, suc, ◌+◌, ◌≡◌, refl, sym, ◌∙◌, arith, subst, inl, inr, Bool, true, false, List, [], ◌∷◌,
  ◌++◌, Option, none, some, ◌==◌, if◌then◌else◌, Bool-cases, Option-cases,
}
use cvcn.Common.Dict.{Dict, lookup, insert, lookup-insert}
use cvcn.Wire.Bytes.{Bytes}
use cvcn.Session.{ClientSession}
use cvcn.Server.{
  Server, SessionCommand, send_raw_command, close_command, task_done_command, M, ◌>>=◌, ◌>>◌, pure,
  asks, updates, deref, push, send_raw, request_close,
}

abbrev pub IsLive : ℕ → Dict ClientSession → Type 0
IsLive session heap = (s : ClientSession) × (lookup session heap ≡ some s)

abbrev pub RegistryLive : Dict ℕ → Dict ClientSession → Type 0
RegistryLive registry heap = (u a : ℕ) → lookup u registry ≡ some a → IsLive a heap

-- The commands that tell the main thread that a task of `fd` is done.
abbrev pub done_for : ℕ → SessionCommand → ℕ
done_for fd (send_raw_command k packet) = 0
done_for fd (close_command k) = 0
done_for fd (task_done_command k) = if k == fd then 1 else 0

abbrev pub count_done : ℕ → List SessionCommand → ℕ
count_done fd [] = 0
count_done fd (c ∷ cs) = done_for fd c + count_done fd cs

pub count_done-append :
    (fd : ℕ) (xs ys : List SessionCommand)
    → count_done fd (xs ++ ys) ≡ count_done fd xs + count_done fd ys
count_done-append fd [] ys = omega arith
count_done-append fd (c ∷ cs) ys = omega (arith, count_done-append fd cs ys)

-- The socket of a session object.
pub record SameSocket (s s' : ClientSession) : Type 0 where
  pub descriptor : s'.file_descriptor ≡ s.file_descriptor
  pub closing : s'.closed ≡ s.closed

-- No object is deleted, made, opened or closed, and no task is reported.
pub record Evolves {Db : Type 0} (st st' : Server Db) : Type 0 where
  pub objects :
      (b : ℕ) (s : ClientSession)
      → lookup b st.heap ≡ some s
      → (s' : ClientSession) × (lookup b st'.heap ≡ some s') × SameSocket s s'
  pub absent : (b : ℕ) → lookup b st.heap ≡ none → lookup b st'.heap ≡ none
  pub dones : (fd : ℕ) → count_done fd st'.results ≡ count_done fd st.results

pub Evolves-refl : {Db : Type 0} (st : Server Db) → Evolves st st
Evolves-refl st = record {
  objects = λ b s e. (s, e, record { descriptor = refl; closing = refl });
  absent = λ b e. e;
  dones = λ fd. refl;
}

Evolves-trans : {Db : Type 0} (st t u : Server Db) → Evolves st t → Evolves t u → Evolves st u
Evolves-trans st t u v w = record {
  objects = λ b s e.
      let (s1, e1, k1) = v.objects b s e in
      let (s2, e2, k2) = w.objects b s1 e1 in
      (
        s2,
        e2,
        record { descriptor = k2.descriptor ∙ k1.descriptor; closing = k2.closing ∙ k1.closing },
      );
  absent = λ b e. w.absent b (v.absent b e);
  dones = λ fd. w.dones fd ∙ v.dones fd;
}

-- A predicate on the registry and the heap.
abbrev pub Assertion : Type 1
Assertion = Dict ℕ → Dict ClientSession → Type 0

-- From `P` the call returns, `Q` holds after it, and the server has evolved.
pub record Returns {Db A : Type 0} (P Q : Assertion) (m : M Db A) : Type 0 where
  pub at :
      (st : Server Db)
      → P st.registry st.heap
      → (a : A) × (st' : Server Db) × (m st ≡ some (a, st'))
        × Q st'.registry st'.heap
        × Evolves st st'

pub bind-some :
    {Db A B : Type 0} (m : M Db A) (f : A → M Db B) (st : Server Db) (a : A) (st' : Server Db)
    → m st ≡ some (a, st')
    → (m >>= f) st ≡ f a st'
unfolding ◌>>=◌
bind-some m f st a st' e = rw (e, ◌>>=◌)

pub send_raw_live :
    {Db : Type 0} (a : ℕ) (packet : Bytes) (st : Server Db) (s : ClientSession)
    → lookup a st.heap ≡ some s
    → send_raw a packet st
      ≡ some
          (tt, record st { results = st.results ++ send_raw_command s.file_descriptor packet ∷ [] })
unfolding send_raw push deref ◌>>=◌
send_raw_live a packet st s e = ground arith

pub Returns-bind :
    {Db A B : Type 0} (P Q R : Assertion) (m : M Db A) (f : A → M Db B)
    → Returns P Q m
    → ((a : A) → Returns Q R (f a))
    → Returns P R (m >>= f)
Returns-bind P Q R m f rm rf = record {
  at = λ st v.
      let (a, st1, e1, v1, k1) = rm.at st v in
      let (b, st2, e2, v2, k2) = (rf a).at st1 v1 in
      (b, st2, bind-some m f st a st1 e1 ∙ e2, v2, Evolves-trans st st1 st2 k1 k2);
}

pub Returns-if :
    {Db A : Type 0} (P Q : Assertion) (b : Bool) (m n : M Db A)
    → Returns P Q m
    → Returns P Q n
    → Returns P Q (if b then m else n)
Returns-if P Q true m n rm rn = rm
Returns-if P Q false m n rm rn = rn

pub Returns-option :
    {Db A B : Type 0} (P Q : Assertion) (o : Option A) (m : M Db B) (f : A → M Db B)
    → Returns P Q m
    → ((a : A) → Returns P Q (f a))
    → Returns P Q (elim o [ none ↦ m | some a ↦ f a ])
Returns-option P Q none m f rm rf = rm
Returns-option P Q (some a) m f rm rf = rf a

pub Returns-pure :
    {Db A : Type 0} (P Q : Assertion) (a : A)
    → ((r : Dict ℕ) (h : Dict ClientSession) → P r h → Q r h)
    → Returns {Db = Db} P Q (pure a)
unfolding pure
Returns-pure P Q a weaker = record {
  at = λ st v. (a, st, refl, weaker st.registry st.heap v, Evolves-refl st);
}

pub Returns-asks : {Db A : Type 0} (P : Assertion) (f : Db → A) → Returns P P (asks f)
unfolding asks
Returns-asks P f = record { at = λ st v. (f st.db, st, refl, v, Evolves-refl st) }

pub Returns-updates : {Db A : Type 0} (P : Assertion) (f : Db → A × Db) → Returns P P (updates f)
unfolding updates
Returns-updates P f = record {
  at = λ st v. (
    (f st.db).0,
    record st { db = (f st.db).1 },
    refl,
    v,
    record { objects = (Evolves-refl st).objects; absent = λ b e. e; dones = λ fd. refl },
  );
}

-- A command that reports no task joins the queue.
pub Evolves-push :
    {Db : Type 0} (st : Server Db) (c : SessionCommand)
    → ((fd : ℕ) → done_for fd c ≡ 0)
    → Evolves st (record st { results = st.results ++ c ∷ [] })
Evolves-push st c quiet = record {
  objects = (Evolves-refl st).objects;
  absent = λ b e. e;
  dones = λ fd. omega (arith, count_done-append fd st.results (c ∷ []), quiet fd);
}

module _ {Db : Type 0} (session : ℕ) (P : Assertion)
    (live : (r : Dict ℕ) (h : Dict ClientSession) → P r h → IsLive session h) where
  pub Returns-deref : Returns {Db = Db} P P (deref session)
  unfolding deref
  Returns-deref = record {
    at = λ st v.
        let (s, e) = live st.registry st.heap v in (s, st, rw (e, deref), v, Evolves-refl st);
  }

  Returns-push :
      (c : SessionCommand) → ((fd : ℕ) → done_for fd c ≡ 0) → Returns {Db = Db} P P (push c)
  unfolding push
  Returns-push c quiet = record {
    at = λ st v.
        (tt, record st { results = st.results ++ c ∷ [] }, refl, v, Evolves-push st c quiet);
  }

  pub Returns-send_raw : (packet : Bytes) → Returns {Db = Db} P P (send_raw session packet)
  unfolding send_raw
  Returns-send_raw packet = Returns-bind P P P _ _ Returns-deref (λ s. Returns-push _ (λ fd. refl))

  pub Returns-request_close : Returns {Db = Db} P P (request_close session)
  unfolding request_close
  Returns-request_close = Returns-bind P P P _ _ Returns-deref (λ s. Returns-push _ (λ fd. refl))
