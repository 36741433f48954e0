-- ===== src/Clients/Calls.antt =====
-- The methods of `PairedClients`. A call gives the store with its result, none where it raises.
use atvr4samsung.Common.{
  ℕ, suc, ◌+◌, ◌==◌, Bool, true, false, not, ◌&&◌, ◌||◌, List, [], Option, none, some, length, leb,
  if◌then◌else◌,
}
use atvr4samsung.Common.Bytes.{bytes_eq}
use atvr4samsung.Common.Options.{◌>>=◌}
use atvr4samsung.Clients.{
  Clients, PairedClients, Env, Moment, Stamps, Stamp, Opening, not_found, io_error, opened, FromHex,
  no_stamps, stamp_eq, stamps_eq, get_client, set_client, delete_client, hex, read_moment,
  stamps_of, tombstone, max_paired_clients, ltpk_bytes, is_named, is_valid_store,
}

-- A result of a call with the store behind it.
abbrev pub Call : Type 0 → Type 0
Call A = PairedClients × Option A

abbrev pub is_some_stamp : Stamp → Bool
is_some_stamp none = false
is_some_stamp (some a) = true

-- One round of `_reload_from_directory`, from the moment `k`: the store if all the looks agree, none
-- within if they do not, and none where a look raises.
unfoldable pub attempt : FromHex → (ℕ → Moment) → ℕ → PairedClients → Option (Option PairedClients)
unfolding is_valid_store
attempt from_hex at k s = do
  before ← stamps_of (at k)
  read ← read_moment from_hex (at (k + 1))
  legacy ← tombstone (λ st. st.legacy_clear_all) (at (k + 2))
  reset ← tombstone (λ st. st.identity_reset) (at (k + 3))
  after ← stamps_of (at (k + 4))
  some (
      if stamps_eq before after
        && (stamp_eq before.clients read.1
            && (stamp_eq before.legacy_clear_all legacy && stamp_eq before.identity_reset reset))
      then some (record s { clients = read.0; stamps = after })
      else none)

-- `_reload_from_directory`, with its two rounds.
unfoldable pub reload_from_directory : FromHex → (ℕ → Moment) → PairedClients → Call Unit
unfolding attempt
reload_from_directory from_hex at s = elim (attempt from_hex at 0 s) [
  | none ↦ (s, none)
  | some (some t) ↦ (t, some tt)
  | some none ↦ elim (attempt from_hex at 5 s) [
    | none ↦ (s, none)
    | some (some t) ↦ (t, some tt)
    | some none ↦ (s, none)
  ]
]

-- `_ensure_mutable`
abbrev pub is_mutable : PairedClients → Bool
is_mutable s = not s.closed && not s.unsafe

-- `_set_empty_without_directory`
abbrev pub set_empty : PairedClients → PairedClients
set_empty s = record s { clients = []; stamps = no_stamps }

-- `_mark_unsafe_directory`
abbrev pub mark_unsafe : PairedClients → PairedClients
mark_unsafe s = record s { unsafe = true; clients = []; stamps = no_stamps; chain = none }

-- `_reload` without a retained chain
abbrev pub reload_opening : FromHex → (ℕ → Moment) → PairedClients → Opening → Call Unit
reload_opening from_hex at s not_found = (set_empty s, some tt)
reload_opening from_hex at s io_error = (s, none)
reload_opening from_hex at s (opened chain) =
    reload_from_directory from_hex at (record s { chain = some chain })

-- `_revalidate_retained_directory_chain`, and the reload behind it
abbrev pub reload_revalidated : FromHex → (ℕ → Moment) → PairedClients → ℕ → Opening → Call Unit
reload_revalidated from_hex at s chain not_found = (mark_unsafe s, none)
reload_revalidated from_hex at s chain io_error = (mark_unsafe s, none)
reload_revalidated from_hex at s chain (opened replacement) =
    if chain == replacement then reload_from_directory from_hex at s else (mark_unsafe s, none)

abbrev pub reload_chain : FromHex → Env → Bool → PairedClients → Option ℕ → Call Unit
reload_chain from_hex env revalidate s none = reload_opening from_hex env.at s env.opening
reload_chain from_hex env revalidate s (some chain) =
    if revalidate
    then reload_revalidated from_hex env.at s chain env.opening
    else reload_from_directory from_hex env.at s

-- `_reload`
unfoldable pub reload : FromHex → Env → Bool → PairedClients → Call Unit
unfolding reload_from_directory
reload from_hex env revalidate s =
    if not s.has_path
    then (s, some tt)
    else if not (is_mutable s)
    then (s, none)
    else reload_chain from_hex env revalidate s s.chain

-- The moments behind the first.
abbrev pub later : Env → Env
later env = record env { at = λ k. env.at (suc k) }

-- `_refresh_if_changed` with a retained chain: the first moment is the cheap look.
abbrev pub refresh_current : FromHex → Env → PairedClients → Option Stamps → Call Unit
refresh_current from_hex env s none = (s, none)
refresh_current from_hex env s (some current) =
    if stamps_eq current s.stamps then (s, some tt) else reload from_hex (later env) true s

abbrev pub refresh_chain : FromHex → Env → PairedClients → Option ℕ → Call Unit
refresh_chain from_hex env s none = reload from_hex env false s
refresh_chain from_hex env s (some chain) =
    if env.chain_is_current
    then refresh_current from_hex env s (stamps_of (env.at 0))
    else reload from_hex env true s

unfoldable pub refresh_if_changed : FromHex → Env → PairedClients → Call Unit
unfolding reload
refresh_if_changed from_hex env s =
    if not (is_mutable s) then (s, none) else refresh_chain from_hex env s s.chain

abbrev pub has_marker : PairedClients → Bool
has_marker s = is_some_stamp s.stamps.legacy_clear_all || is_some_stamp s.stamps.identity_reset

abbrev pub with_marker : Call Unit → Call Bool
with_marker (s, none) = (s, none)
with_marker (s, some u) = (s, some (has_marker s))

-- `_authority_reset_in_progress`
unfoldable pub authority_reset : FromHex → Env → PairedClients → Call Bool
unfolding refresh_if_changed
authority_reset from_hex env s =
    if s.has_path then with_marker (refresh_if_changed from_hex env s) else (s, some false)

-- `reset_in_progress`
abbrev pub reset_in_progress : FromHex → Env → PairedClients → PairedClients × Bool
reset_in_progress from_hex env s = elim (authority_reset from_hex env s).1 [
  | none ↦ ((authority_reset from_hex env s).0, true)
  | some b ↦ ((authority_reset from_hex env s).0, b)
]

abbrev pub is_expected : List ℕ → Option (List ℕ) → Bool
is_expected ltpk none = false
is_expected ltpk (some expected) = bytes_eq expected (hex ltpk)

abbrev pub decide : List ℕ → List ℕ → Call Bool → PairedClients × Bool
decide identifier ltpk (s, none) = (s, false)
decide identifier ltpk (s, some true) = (s, false)
decide identifier ltpk (s, some false) = (s, is_expected ltpk (get_client identifier s.clients))

-- `authorizes`
unfoldable pub authorizes : FromHex → Env → List ℕ → List ℕ → PairedClients → PairedClients × Bool
unfolding authority_reset hex get_client
authorizes from_hex env identifier ltpk s = decide identifier ltpk (authority_reset from_hex env s)

pub data AddError : Type 0 where
  invalid_entry store_error full io_failed : AddError

-- How `_save` ends: whether the durable write raises.
abbrev pub saved_clients :
    FromHex → Env → Bool → Clients → PairedClients → PairedClients × Option AddError
saved_clients from_hex env written updated s =
    if not s.has_path
    then (record s { clients = updated }, none)
    else if not written
    then (s, some io_failed)
    else (let (t, r) = reload from_hex env true (record s { clients = updated }) in
        (t, elim r [ none ↦ some store_error | some u ↦ none ]))

abbrev pub is_member : Option (List ℕ) → Bool
is_member none = false
is_member (some key) = true

-- `_add_locked` behind its reload
unfoldable pub add_reloaded :
    FromHex → Env → Bool → List ℕ → List ℕ → PairedClients → PairedClients × Option AddError
unfolding reload get_client set_client hex
add_reloaded from_hex env written identifier ltpk s =
    if is_expected ltpk (get_client identifier s.clients)
    then (s, if not s.has_path || written then none else some io_failed)
    else if not (is_member (get_client identifier s.clients))
        && leb max_paired_clients (length s.clients)
    then (s, some full)
    else saved_clients from_hex env written (set_client identifier (hex ltpk) s.clients) s

abbrev pub after_reload :
    {A : Type 0} → (PairedClients → PairedClients × A) → A → Call Unit → PairedClients × A
after_reload f error (s, none) = (s, error)
after_reload f error (s, some u) = f s

-- `add_locked`. `env n` is what the n-th look of the call at the directory meets; `written` tells whether
-- the write, or the sync of the directory in its place, is confirmed.
unfoldable pub add_locked :
    FromHex → (ℕ → Env) → Bool → List ℕ → List ℕ → PairedClients → PairedClients × Option AddError
unfolding add_reloaded authority_reset reload
add_locked from_hex env written identifier ltpk s =
    if not (is_named identifier && length ltpk == ltpk_bytes)
    then (s, some invalid_entry)
    else if not (is_mutable s)
    then (s, some store_error)
    else (let (t, resetting) = reset_in_progress from_hex (env 0) s in
        if resetting
        then (t, some store_error)
        else after_reload (add_reloaded from_hex (env 2) written identifier ltpk) (some store_error)
            (reload from_hex (env 1) true t))

abbrev pub removed : PairedClients × Option AddError → PairedClients × Option Bool
removed (s, none) = (s, some true)
removed (s, some error) = (s, none)

unfoldable pub remove_reloaded :
    FromHex → Env → Bool → List ℕ → PairedClients → PairedClients × Option Bool
unfolding reload get_client delete_client
remove_reloaded from_hex env written identifier s =
    if is_member (get_client identifier s.clients)
    then removed (saved_clients from_hex env written (delete_client identifier s.clients) s)
    else (s, if not s.has_path || written then some false else none)

-- `_remove_locked`: none where it raises.
unfoldable pub remove_locked :
    FromHex → (ℕ → Env) → Bool → List ℕ → PairedClients → PairedClients × Option Bool
unfolding remove_reloaded reload
remove_locked from_hex env written identifier s =
    if not (is_mutable s)
    then (s, none)
    else after_reload (remove_reloaded from_hex (env 1) written identifier) none
        (reload from_hex (env 0) true s)

-- `close`
abbrev pub close : PairedClients → PairedClients
close s = if s.closed then s else record s { closed = true; chain = none }

-- `__init__`, which raises where the first reload does.
abbrev pub new_store : Bool → PairedClients
new_store has_path = record {
  has_path = has_path;
  clients = [];
  stamps = no_stamps;
  chain = none;
  closed = false;
  unsafe = false;
}
