-- ===== src/Guardrails.antt =====
-- src/atvr4samsung/companion/protocol/guardrails.py: connection admission and pairing throttles.
-- A monotonic clock is a number of ticks, `ticks` to a second, in place of a float: the rounding of
-- float seconds is not modelled. The clock's value is an argument of each operation that reads it.
pub mod Admission
pub mod Queues
pub mod Setup
pub mod Failure
mod Tests
use atvr4samsung.Common.{
  ℕ, zero, suc, ◌+◌, ◌-◌, ◌/◌, max, Bool, true, false, ◌&&◌, ◌||◌, List, [], ◌∷◌, ◌++◌, Option,
  none, some, length, take, ltb, leb, ◌==◌, if◌then◌else◌,
}
use atvr4samsung.Common.Bytes.{bytes_eq}

-- Sets of connections, named by numbers.
abbrev pub contains : ℕ → List ℕ → Bool
contains x [] = false
contains x (y ∷ ys) = if x == y then true else contains x ys

abbrev pub discard : ℕ → List ℕ → List ℕ
discard x [] = []
discard x (y ∷ ys) = let rest = discard x ys in if x == y then rest else y ∷ rest

abbrev pub add : ℕ → List ℕ → List ℕ
add x xs = if contains x xs then xs else x ∷ xs

pub record ConnectionAdmission : Type 0 where
  pub max_connections : ℕ
  pub max_unauthenticated : ℕ
  pub connections : List ℕ
  pub unauthenticated : List ℕ

pub data Reason : Type 0 where
  total_connection_limit unauthenticated_connection_limit : Reason

abbrev pub new_admission : ℕ → ℕ → ConnectionAdmission
new_admission max_connections max_unauthenticated = record {
  max_connections = max_connections;
  max_unauthenticated = max_unauthenticated;
  connections = [];
  unauthenticated = [];
}

pub connection_count : ConnectionAdmission → ℕ
connection_count a = length a.connections

pub unauthenticated_count : ConnectionAdmission → ℕ
unauthenticated_count a = length a.unauthenticated

-- `acquire`: the new state, and the reason of a refusal.
pub acquire : ConnectionAdmission → ℕ → ConnectionAdmission × Option Reason
acquire a connection =
    if contains connection a.connections
    then (a, none)
    else if leb a.max_connections (length a.connections)
    then (a, some total_connection_limit)
    else if leb a.max_unauthenticated (length a.unauthenticated)
    then (a, some unauthenticated_connection_limit)
    else (
      record a {
        connections = add connection a.connections;
        unauthenticated = add connection a.unauthenticated;
      },
      none,
    )

pub authenticated : ConnectionAdmission → ℕ → ConnectionAdmission
authenticated a connection = record a { unauthenticated = discard connection a.unauthenticated }

pub release : ConnectionAdmission → ℕ → ConnectionAdmission
release a connection = record a {
  connections = discard connection a.connections;
  unauthenticated = discard connection a.unauthenticated;
}

-- `str.isspace` for one code point.
abbrev pub is_space : ℕ → Bool
is_space c =
    leb 9 c && leb c 13
    || leb 28 c && leb c 32
    || c == 133
    || c == 160
    || c == 5760
    || leb 8192 c && leb c 8202
    || leb 8232 c && leb c 8233
    || c == 8239
    || c == 8287
    || c == 12288

pub lstrip : List ℕ → List ℕ
lstrip [] = []
lstrip (c ∷ cs) = let rest = lstrip cs in if is_space c then rest else c ∷ cs

abbrev trimmed : ℕ → List ℕ → List ℕ
trimmed c [] = if is_space c then [] else c ∷ []
trimmed c (d ∷ ds) = c ∷ d ∷ ds

pub rstrip : List ℕ → List ℕ
rstrip [] = []
rstrip (c ∷ cs) = trimmed c (rstrip cs)

-- "<unknown>"
abbrev pub unknown_source : List ℕ
unknown_source = 60 ∷ 117 ∷ 110 ∷ 107 ∷ 110 ∷ 111 ∷ 119 ∷ 110 ∷ 62 ∷ []

abbrev pub max_source_key_length : ℕ
max_source_key_length = 64

abbrev pub key_of_stripped : List ℕ → List ℕ
key_of_stripped [] = unknown_source
key_of_stripped (c ∷ cs) = take max_source_key_length (c ∷ cs)

-- `_source_key`; a source is a text, as its code points, or None.
pub source_key : Option (List ℕ) → List ℕ
unfolding lstrip rstrip
source_key none = unknown_source
source_key (some source) = key_of_stripped (rstrip (lstrip source))

-- The two limiters keep the same state: a queue of times for all sources, oldest first, and an
-- ordered dict of queues. `window` is in ticks.
abbrev pub Sources : Type 0
Sources = List (List ℕ × List ℕ)

pub record Limiter : Type 0 where
  pub per_source_limit : ℕ
  pub global_limit : ℕ
  pub window : ℕ
  pub max_sources : ℕ
  pub ticks : ℕ
  pub global_times : List ℕ
  pub source_times : Sources

pub tracked_sources : Limiter → ℕ
tracked_sources l = length l.source_times

-- `self._source_attempts.get(key)`
pub get_source : List ℕ → Sources → Option (List ℕ)
get_source key [] = none
get_source key ((k, times) ∷ sources) =
    if bytes_eq k key then some times else get_source key sources

pub remove_source : List ℕ → Sources → Sources
remove_source key [] = []
remove_source key ((k, times) ∷ sources) =
    let rest = remove_source key sources in if bytes_eq k key then rest else (k, times) ∷ rest

-- `while attempts and attempts[0] <= cutoff: attempts.popleft()`, with `cutoff = now - window`.
pub pop_expired : ℕ → ℕ → List ℕ → List ℕ
pop_expired window now [] = []
pop_expired window now (t ∷ times) =
    let rest = pop_expired window now times in if leb (t + window) now then rest else t ∷ times

abbrev pub kept : List ℕ → List ℕ → Sources → Sources
kept key [] rest = rest
kept key (t ∷ ts) rest = (key, t ∷ ts) ∷ rest

pub pop_sources : ℕ → ℕ → Sources → Sources
unfolding pop_expired
pop_sources window now [] = []
pop_sources window now ((key, times) ∷ sources) =
    kept key (pop_expired window now times) (pop_sources window now sources)

-- `popitem(last=False)`
abbrev pub pop_oldest : Sources → Sources
pop_oldest [] = []
pop_oldest (source ∷ sources) = sources

-- The source's queue is moved to the end of the dict, made new if there is none, and gets `now`.
pub push_source : ℕ → List ℕ → ℕ → Sources → Option (List ℕ) → Sources
unfolding remove_source
push_source max_sources key now sources none =
    (if leb max_sources (length sources) then pop_oldest sources else sources)
    ++ ((key, now ∷ []) ∷ [])
push_source max_sources key now sources (some times) =
    remove_source key sources ++ ((key, times ++ (now ∷ [])) ∷ [])

-- `max(1, math.ceil(self.window_seconds - (now - oldest)))`, in seconds.
pub retry_after : Limiter → ℕ → ℕ → ℕ
retry_after l now oldest = max 1 ((l.window - (now - oldest) + l.ticks - 1) / l.ticks)
