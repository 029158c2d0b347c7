-- ===== src/Startup/Socket.antt =====
-- The descriptors that startListening leaves open.
use cvcn.Common.{
  ℕ, ◌≡◌, refl, sym, ap, subst, ◌∙◌, Bool, true, false, ◌&&◌, List, [], ◌∷◌, Option, none, some,
  ==_refl, if◌then◌else◌,
}
use cvcn.Startup.{ListeningSocket, close_descriptor, close_socket, bind_and_listen, start_listening}

abbrev pub owned : Option ℕ → List ℕ
owned none = []
owned (some fd) = fd ∷ []

-- The open descriptors are the one that the object holds.
abbrev pub IsTidy : ListeningSocket → Type 0
IsTidy l = l.open_descriptors ≡ owned l.server_file_descriptor

abbrev pub idle : ListeningSocket
idle = record { server_file_descriptor = none; open_descriptors = [] }

close-one : (fd : ℕ) → close_descriptor fd (fd ∷ []) ≡ []
unfolding close_descriptor
close-one fd = rw (==_refl fd) refl

pub close_socket-idle :
    (held : Option ℕ) (ds : List ℕ)
    → ds ≡ owned held
    → close_socket (record { server_file_descriptor = held; open_descriptors = ds }) ≡ idle
unfolding close_socket
close_socket-idle none ds h =
    ap (λ t. record { server_file_descriptor = none; open_descriptors = t }) h
close_socket-idle (some fd) ds h =
    ap (λ t. record { server_file_descriptor = none; open_descriptors = t })
      (ap (close_descriptor fd) h ∙ close-one fd)

abbrev pub IsStarted : Option ℕ → Bool → Bool → ListeningSocket → Type 0
IsStarted socket binds listens l =
    IsTidy l × (l.server_file_descriptor ≡ (if binds && listens then socket else none))

idle-IsStarted : (l : ListeningSocket) → l ≡ idle → IsTidy l × (l.server_file_descriptor ≡ none)
idle-IsStarted l e = (
  ap (λ (k : ListeningSocket). k.open_descriptors) e
      ∙ ap (λ (k : ListeningSocket). owned k.server_file_descriptor) (sym e),
  ap (λ (k : ListeningSocket). k.server_file_descriptor) e,
)

bind_and_listen-IsStarted :
    (fd : ℕ) (binds listens : Bool)
    → IsStarted (some fd) binds listens (bind_and_listen fd binds listens idle)
unfolding bind_and_listen
bind_and_listen-IsStarted fd true true = (refl, refl)
bind_and_listen-IsStarted fd true false =
    idle-IsStarted _ (close_socket-idle (some fd) (fd ∷ []) refl)
bind_and_listen-IsStarted fd false listens =
    idle-IsStarted _ (close_socket-idle (some fd) (fd ∷ []) refl)

abbrev nothing : Option ℕ
nothing = none

if_none : (b : Bool) → (if b then nothing else nothing) ≡ nothing
if_none true = refl
if_none false = refl

socket-IsStarted :
    (socket : Option ℕ) (binds listens : Bool) (l : ListeningSocket)
    → l ≡ idle
    → IsStarted socket binds listens
        (elim socket [ none ↦ l | some fd ↦ bind_and_listen fd binds listens l ])
socket-IsStarted none binds listens l e =
    let (tidy, closed) = idle-IsStarted l e in (tidy, closed ∙ sym (if_none (binds && listens)))
socket-IsStarted (some fd) binds listens l e =
    subst (λ k. IsStarted (some fd) binds listens (bind_and_listen fd binds listens k)) (sym e)
      (bind_and_listen-IsStarted fd binds listens)

-- startListening holds a descriptor afterwards exactly if socket gave one and bind and listen
-- succeeded; on every path, and whatever the object held before, no other descriptor stays open.
pub start_listening-IsStarted :
    (socket : Option ℕ) (binds listens : Bool) (l : ListeningSocket)
    → IsTidy l
    → IsStarted socket binds listens (start_listening socket binds listens l)
unfolding start_listening
start_listening-IsStarted socket binds listens l tidy =
    socket-IsStarted socket binds listens (close_socket l)
      (close_socket-idle l.server_file_descriptor l.open_descriptors tidy)
