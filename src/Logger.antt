-- ===== src/Logger.antt =====
-- server/utils/Logger.cpp (client/utils/Logger.cpp differs in comments only). spdlog is a parameter: whether
-- the file can be opened, and whether a call of it throws. What it does with a record has no model.
use cvcn.Common.{
  ℕ, zero, suc, ◌-◌, ◌≡◌, refl, ap, ◌∙◌, Bool, true, false, ◌||◌, List, [], ◌∷◌, ◌++◌, Option, none,
  some, length, take, drop, All, All-append, ◌==◌, if◌then◌else◌, take-length_append,
}
use cvcn.Wire.Bytes.{Bytes}

pub data Level : Type 0 where
  trace info warn err critical : Level

pub data Sink : Type 0 where
  console_sink file_sink : Level → Sink

pub data LoggerName : Type 0 where
  fallback_logger configured_logger : LoggerName

-- A `spdlog::logger` as it is set up.
pub record Logger : Type 0 where
  pub name : LoggerName
  pub sinks : List Sink
  pub level : Level
  pub flushes_on : Option Level

unfoldable pub make_console_fallback : Logger
make_console_fallback = record {
  name = fallback_logger;
  sinks = console_sink trace ∷ [];
  level = trace;
  flushes_on = none;
}

-- The constructor; an exception leaves the console.
unfoldable pub new_logger : Bool → Logger
new_logger file_opens =
    if file_opens
    then record {
      name = configured_logger;
      sinks = console_sink info ∷ file_sink trace ∷ [];
      level = trace;
      flushes_on = some info;
    }
    else make_console_fallback

-- `std::string::find_last_of`; none is `npos`.
unfoldable pub find_last_of : (ℕ → Bool) → Bytes → Option ℕ
find_last_of test [] = none
find_last_of test (c ∷ cs) = elim (find_last_of test cs) [
  | none ↦ if test c then some 0 else none
  | some k ↦ some (suc k)
]

abbrev pub is_slash : ℕ → Bool
is_slash c = c == b'/' || c == b'\\'

abbrev pub is_dot : ℕ → Bool
is_dot c = c == b'.'

unfoldable pub file_name : Bytes → Bytes
file_name path = elim (find_last_of is_slash path) [
  | none ↦ path
  | some slash ↦ drop (suc slash) path
]

unfoldable pub without_extension : Bytes → Bytes
without_extension path = elim (find_last_of is_dot path) [ none ↦ path | some dot ↦ take dot path ]

unfoldable pub component_from_file : Bytes → Bytes
component_from_file file = without_extension (file_name file)

abbrev spaces : ℕ → Bytes
spaces zero = []
spaces (suc n) = b' ' ∷ spaces n

-- `[{:<18}] {}`
unfoldable pub log_line : Bytes → Bytes → Bytes
log_line component message =
    b'[' ∷ (component ++ (spaces (18 - length component) ++ b']' ∷ b' ' ∷ message))

-- What `log` hands to the logger: nothing without a logger, and nothing where the call throws.
unfoldable pub log : Option Logger → Bool → Bytes → Level → Bytes → List (Level × Bytes)
log none throws file level message = []
log (some logger) throws file level message =
    if throws then [] else (level, log_line (component_from_file file) message) ∷ []

-- The template `log`: `formatted` is what fmt::format gives, none where it throws `what`.
unfoldable pub log_format :
    Option Logger → Bool → Bytes → Level → Option Bytes → Bytes → Bytes → List (Level × Bytes)
log_format logger throws file level formatted problem what = elim formatted [
  | none ↦ log logger throws file level (problem ++ what)
  | some message ↦ log logger throws file level message
]

-- No character of the text passes the test.
abbrev pub IsFree : (ℕ → Bool) → Bytes → Type 0
IsFree test s = All (λ (c : ℕ). test c ≡ false) s

find_last_of-none : (test : ℕ → Bool) (s : Bytes) → IsFree test s → find_last_of test s ≡ none
unfolding find_last_of
find_last_of-none test [] h = refl
find_last_of-none test (c ∷ s) (h, hs) = rw (find_last_of-none test s hs, find_last_of) (rw h refl)

find_last_of-last :
    (test : ℕ → Bool) (before after : Bytes) (c : ℕ)
    → test c ≡ true
    → IsFree test after
    → find_last_of test (before ++ c ∷ after) ≡ some (length before)
unfolding find_last_of
find_last_of-last test [] after c hit free =
    rw (find_last_of-none test after free, find_last_of) (rw hit refl)
find_last_of-last test (b ∷ before) after c hit free =
    rw (find_last_of-last test before after c hit free, find_last_of) refl

drop-behind :
    (before after : Bytes) (c : ℕ) → drop (suc (length before)) (before ++ c ∷ after) ≡ after
drop-behind [] after c = refl
drop-behind (b ∷ before) after c = drop-behind before after c

IsFree-append :
    (test : ℕ → Bool) (s t : Bytes) → IsFree test s → IsFree test t → IsFree test (s ++ t)
IsFree-append test s t hs ht = All-append (λ (c : ℕ). test c ≡ false) s t hs ht

file_name-path :
    (dir file : Bytes) (slash : ℕ)
    → is_slash slash ≡ true
    → IsFree is_slash file
    → file_name (dir ++ slash ∷ file) ≡ file
unfolding file_name
file_name-path dir file slash hit free =
    rw (find_last_of-last is_slash dir file slash hit free, file_name) (drop-behind dir file slash)

without_extension-path :
    (name ext : Bytes) → IsFree is_dot ext → without_extension (name ++ b'.' ∷ ext) ≡ name
unfolding without_extension
without_extension-path name ext no_dot =
    rw (find_last_of-last is_dot name ext b'.' refl no_dot, without_extension)
      (take-length_append name _)

-- The component of a source file is its name without the directories, which either kind of slash
-- ends, and without the part from the last dot on.
pub component_from_file-path :
    (dir name ext : Bytes) (slash : ℕ)
    → is_slash slash ≡ true
    → IsFree is_slash name
    → IsFree is_slash ext
    → IsFree is_dot ext
    → component_from_file (dir ++ slash ∷ (name ++ b'.' ∷ ext)) ≡ name
unfolding component_from_file
component_from_file-path dir name ext slash hit name_free ext_free no_dot =
    let file : Bytes = name ++ b'.' ∷ ext in
    let free : IsFree is_slash file =
      IsFree-append is_slash name (b'.' ∷ ext) name_free (refl, ext_free) in
    ap without_extension (file_name-path dir file slash hit free)
    ∙ without_extension-path name ext no_dot
