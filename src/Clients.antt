-- ===== src/Clients.antt =====
-- src/atvr4samsung/companion/protocol/paired_clients.py: the store of paired clients. An identifier and
-- a stored key are texts, as their code points. What the state directory shows while a call runs is a
-- value of `Env`: each look at it is one moment more, and another process may write between two.
pub mod Calls
pub mod Moments
pub mod Fresh
pub mod Capacity
pub mod Reading
pub mod Bounded
mod Tests
use atvr4samsung.Common.{
  ℕ, zero, suc, ◌+◌, ◌/◌, ◌%◌, ◌==◌, Bool, true, false, not, ◌&&◌, ◌||◌, List, [], ◌∷◌, ◌++◌,
  Option, none, some, length, ltb, leb, if◌then◌else◌,
}
use atvr4samsung.Common.Bytes.{bytes_eq}
use atvr4samsung.Enrollment.{is_in}

abbrev pub max_paired_clients : ℕ
max_paired_clients = 8

abbrev pub ltpk_bytes : ℕ
ltpk_bytes = 32

abbrev pub Clients : Type 0
Clients = List (List ℕ × List ℕ)

-- `self._clients.get(identifier)`
unfoldable pub get_client : List ℕ → Clients → Option (List ℕ)
get_client identifier [] = none
get_client identifier ((i, key) ∷ clients) =
    if bytes_eq i identifier then some key else get_client identifier clients

-- `updated[identifier] = key`
unfoldable pub set_client : List ℕ → List ℕ → Clients → Clients
set_client identifier key [] = (identifier, key) ∷ []
set_client identifier key ((i, k) ∷ clients) =
    let rest = set_client identifier key clients in
    if bytes_eq i identifier then (i, key) ∷ clients else (i, k) ∷ rest

-- `del updated[identifier]`
unfoldable pub delete_client : List ℕ → Clients → Clients
delete_client identifier [] = []
delete_client identifier ((i, k) ∷ clients) =
    let rest = delete_client identifier clients in
    if bytes_eq i identifier then clients else (i, k) ∷ rest

-- `bytes.hex`
abbrev pub hex_digit : ℕ → ℕ
hex_digit n = if ltb n 10 then 48 + n else 87 + n

unfoldable pub hex : List ℕ → List ℕ
hex [] = []
hex (b ∷ bs) = hex_digit (b / 16) ∷ hex_digit (b % 16) ∷ hex bs

-- The signature of a file; none where there is no file.
abbrev pub Stamp : Type 0
Stamp = Option ℕ

abbrev pub stamp_eq : Stamp → Stamp → Bool
stamp_eq none none = true
stamp_eq none (some b) = false
stamp_eq (some a) none = false
stamp_eq (some a) (some b) = a == b

-- The stamps of the record and of the two recovery markers.
pub record Stamps : Type 0 where
  pub clients : Stamp
  pub legacy_clear_all : Stamp
  pub identity_reset : Stamp

abbrev pub stamps_eq : Stamps → Stamps → Bool
stamps_eq s t =
    stamp_eq s.clients t.clients
    && stamp_eq s.legacy_clear_all t.legacy_clear_all
    && stamp_eq s.identity_reset t.identity_reset

abbrev pub no_stamps : Stamps
no_stamps = record { clients = none; legacy_clear_all = none; identity_reset = none }

-- A moment of the directory: the record's text is what json.loads makes of it, none where it is not a
-- mapping of texts to texts; no field can be read where `fails`.
pub record Moment : Type 0 where
  pub fails : Bool
  pub stamps : Stamps
  pub content : Option Clients

pub data Opening : Type 0 where
  not_found io_error : Opening
  opened : ℕ → Opening

-- What a call meets: how the directory opens, by the chain of descriptors, whether the retained chain
-- is current, and the moments of the directory from the start of the call.
pub record Env : Type 0 where
  pub opening : Opening
  pub chain_is_current : Bool
  pub at : ℕ → Moment

pub record PairedClients : Type 0 where
  pub has_path : Bool
  pub clients : Clients
  pub stamps : Stamps
  pub chain : Option ℕ
  pub closed : Bool
  pub unsafe : Bool

-- `bytes.fromhex` is a parameter: the number of bytes that a text stands for, none on ValueError.
abbrev pub FromHex : Type 0
FromHex = List ℕ → Option ℕ

abbrev pub is_key : FromHex → List ℕ → Bool
is_key from_hex key = elim (from_hex key) [ none ↦ false | some size ↦ size == ltpk_bytes ]

abbrev pub is_named : List ℕ → Bool
is_named [] = false
is_named (c ∷ cs) = true

unfoldable pub are_valid : FromHex → Clients → Bool
are_valid from_hex [] = true
are_valid from_hex ((i, key) ∷ clients) =
    is_named i && is_key from_hex key && are_valid from_hex clients

-- `_is_valid_store`, of a mapping of texts to texts
unfoldable pub is_valid_store : FromHex → Clients → Bool
unfolding are_valid
is_valid_store from_hex clients =
    leb (length clients) max_paired_clients && are_valid from_hex clients

-- `_read`: a missing record is an empty store.
abbrev pub read_content : FromHex → Stamp → Option Clients → Option (Clients × Stamp)
read_content from_hex none content = some ([], none)
read_content from_hex (some stamp) none = none
read_content from_hex (some stamp) (some clients) =
    if is_valid_store from_hex clients then some (clients, some stamp) else none

abbrev pub read_moment : FromHex → Moment → Option (Clients × Stamp)
read_moment from_hex m = if m.fails then none else read_content from_hex m.stamps.clients m.content

abbrev pub stamps_of : Moment → Option Stamps
stamps_of m = if m.fails then none else some m.stamps

abbrev pub tombstone : (Stamps → Stamp) → Moment → Option Stamp
tombstone field m = if m.fails then none else some (field m.stamps)
