-- ===== src/Clients/Bounded.antt =====
-- The store stays valid through any calls.
use atvr4samsung.Common.{
  ℕ, ◌≤◌, ◌==◌, ◌≡◌, refl, Bool, true, false, not, ◌&&◌, List, [], ◌∷◌, Option, none, some, arith,
  length, leb, if◌then◌else◌,
}
use atvr4samsung.Clients.{
  Clients, PairedClients, Env, FromHex, get_client, set_client, delete_client, hex, is_named,
  is_key, max_paired_clients, ltpk_bytes, is_valid_store,
}
use atvr4samsung.Clients.Calls.{
  Call, is_mutable, reload, authority_reset, reset_in_progress, is_expected, is_member, authorizes,
  AddError, saved_clients, add_reloaded, add_locked, after_reload, removed, remove_reloaded,
  remove_locked, close, new_store, store_error,
}
use atvr4samsung.Clients.Capacity.{
  IsValid, valid_nil, split_valid, join_valid, set-are_valid, delete-are_valid, length-delete,
  length-set, length-set_le,
}
use atvr4samsung.Clients.Reading.{
  reload-Valid, authority-IsValid, authorizes-IsValid, saved-IsValid,
}

-- `bytes.fromhex` reads what `bytes.hex` writes.
abbrev pub ReadsHex : FromHex → Type 0
ReadsHex from_hex = (b : List ℕ) → from_hex (hex b) ≡ some (length b)

-- The calls on a store, each with what it meets.
pub data Request : Type 0 where
  adds : (ℕ → Env) → Bool → List ℕ → List ℕ → Request
  removes : (ℕ → Env) → Bool → List ℕ → Request
  asks : Env → List ℕ → List ℕ → Request
  reloads : Env → Bool → Request
  closes : Request

abbrev pub serve : FromHex → PairedClients → Request → PairedClients
serve from_hex s (adds env written identifier ltpk) =
    (add_locked from_hex env written identifier ltpk s).0
serve from_hex s (removes env written identifier) =
    (remove_locked from_hex env written identifier s).0
serve from_hex s (asks env identifier ltpk) = (authorizes from_hex env identifier ltpk s).0
serve from_hex s (reloads env revalidate) = (reload from_hex env revalidate s).0
serve from_hex s closes = close s

abbrev pub serve_all : FromHex → PairedClients → List Request → PairedClients
serve_all from_hex s [] = s
serve_all from_hex s (r ∷ rs) = serve_all from_hex (serve from_hex s r) rs

module _ (from_hex : FromHex) (law : ReadsHex from_hex) where
  abbrev Ok : Type 0 → Type 0
  Ok A = PairedClients × A

  abbrev First : {A : Type 0} → PairedClients × A → Type 0
  First r = IsValid from_hex r.0

  First-if :
      {A : Type 0} (b : Bool) (p q : PairedClients × A)
      → (b ≡ true → First p)
      → (b ≡ false → First q)
      → First (if b then p else q)
  First-if true p q x y = x refl
  First-if false p q x y = y refl

  First-after_reload :
      {A : Type 0} (f : PairedClients → PairedClients × A) (error : A) (r : Call Unit)
      → IsValid from_hex r.0
      → ((t : PairedClients) → IsValid from_hex t → First (f t))
      → First (after_reload f error r)
  First-after_reload f error (s, none) v h = v
  First-after_reload f error (s, some u) v h = h s v

  key-hex : (ltpk : List ℕ) → length ltpk ≡ ltpk_bytes → is_key from_hex (hex ltpk) ≡ true
  key-hex ltpk l = rw (law ltpk, is_key) (ground arith)

  -- A client that is set fits where it replaces one, or where there is room.
  set-IsValid :
      (identifier ltpk : List ℕ) (clients : Clients)
      → is_named identifier ≡ true
      → length ltpk ≡ ltpk_bytes
      → (not (is_member (get_client identifier clients)) && leb max_paired_clients (length clients))
        ≡ false
      → is_valid_store from_hex clients ≡ true
      → is_valid_store from_hex (set_client identifier (hex ltpk) clients) ≡ true
  set-IsValid identifier ltpk clients n l room v =
      let (b, a) = split_valid from_hex clients v in
      join_valid from_hex (set_client identifier (hex ltpk) clients)
        (fits (is_member (get_client identifier clients)) refl b)
        (set-are_valid from_hex identifier (hex ltpk) clients n (key-hex ltpk l) a)
    where
      fits :
          (m : Bool)
          → is_member (get_client identifier clients) ≡ m
          → length clients ≤ max_paired_clients
          → length (set_client identifier (hex ltpk) clients) ≤ max_paired_clients
      fits true m b = omega (arith, length-set from_hex identifier (hex ltpk) clients m)
      fits false m b = ground (arith, length-set_le from_hex identifier (hex ltpk) clients)

  add_reloaded-IsValid :
      (env : Env) (written : Bool) (identifier ltpk : List ℕ) (s : PairedClients)
      → is_named identifier ≡ true
      → length ltpk ≡ ltpk_bytes
      → IsValid from_hex s
      → First (add_reloaded from_hex env written identifier ltpk s)
  unfolding add_reloaded
  add_reloaded-IsValid env written identifier ltpk s n l v =
      First-if (is_expected ltpk (get_client identifier s.clients)) _ _ (λ e. v)
        (λ e.
          First-if
            (not (is_member (get_client identifier s.clients))
              && leb max_paired_clients (length s.clients))
            _ _ (λ f. v)
            (λ f.
              saved-IsValid from_hex env written (set_client identifier (hex ltpk) s.clients) s v
                (set-IsValid identifier ltpk s.clients n l f v)))

  reset-IsValid :
      (env : Env) (s : PairedClients)
      → IsValid from_hex s
      → First (reset_in_progress from_hex env s)
  reset-IsValid env s v =
      decided (authority_reset from_hex env s).1 (authority_reset from_hex env s).0
        (authority-IsValid from_hex env s v)
    where
      decided :
          (o : Option Bool) (t : PairedClients)
          → IsValid from_hex t
          → First (elim o as (λ x. PairedClients × Bool) [ none ↦ (t, true) | some b ↦ (t, b) ])
      decided none t w = w
      decided (some b) t w = w

  add_locked-IsValid :
      (env : ℕ → Env) (written : Bool) (identifier ltpk : List ℕ) (s : PairedClients)
      → IsValid from_hex s
      → First (add_locked from_hex env written identifier ltpk s)
  unfolding add_locked
  add_locked-IsValid env written identifier ltpk s v =
      First-if (not (is_named identifier && length ltpk == ltpk_bytes)) _ _ (λ e. v)
        (λ e.
          First-if (not (is_mutable s)) _ _ (λ f. v)
            (λ f.
              let (t, resetting) = reset_in_progress from_hex (env 0) s in
              First-if resetting (t, some store_error) _ (λ g. reset-IsValid (env 0) s v)
                (λ g.
                  First-after_reload (add_reloaded from_hex (env 2) written identifier ltpk)
                    (some store_error) (reload from_hex (env 1) true t)
                    (reload-Valid from_hex (env 1) true t (reset-IsValid (env 0) s v))
                    (λ u w.
                      add_reloaded-IsValid (env 2) written identifier ltpk u (ground arith)
                        (ground arith) w))))

  remove_locked-IsValid :
      (env : ℕ → Env) (written : Bool) (identifier : List ℕ) (s : PairedClients)
      → IsValid from_hex s
      → First (remove_locked from_hex env written identifier s)
  unfolding remove_locked remove_reloaded
  remove_locked-IsValid env written identifier s v =
      First-if (not (is_mutable s)) _ _ (λ e. v)
        (λ e.
          First-after_reload (remove_reloaded from_hex (env 1) written identifier) none
            (reload from_hex (env 0) true s) (reload-Valid from_hex (env 0) true s v) deleted)
    where
      done : (r : PairedClients × Option AddError) → IsValid from_hex r.0 → First (removed r)
      done (t, none) w = w
      done (t, some error) w = w

      deleted :
          (t : PairedClients)
          → IsValid from_hex t
          → First (remove_reloaded from_hex (env 1) written identifier t)
      deleted t w =
          let (b, a) = split_valid from_hex t.clients w in
          First-if (is_member (get_client identifier t.clients)) _ _
            (λ e.
              done (saved_clients from_hex (env 1) written (delete_client identifier t.clients) t) (
                saved-IsValid from_hex (env 1) written (delete_client identifier t.clients) t w (
                  join_valid from_hex (delete_client identifier t.clients)
                    (omega (arith, length-delete from_hex identifier t.clients))
                    (delete-are_valid from_hex identifier t.clients a))))
            (λ e. w)

  close-IsValid : (s : PairedClients) → IsValid from_hex s → IsValid from_hex (close s)
  close-IsValid s v = closed s.closed
    where
      closed :
          (b : Bool) → IsValid from_hex (if b then s else record s { closed = true; chain = none })
      closed true = v
      closed false = v

  serve_all-IsValid :
      (rs : List Request) (s : PairedClients)
      → IsValid from_hex s
      → IsValid from_hex (serve_all from_hex s rs)
  serve_all-IsValid [] s v = v
  serve_all-IsValid (adds env written identifier ltpk ∷ rs) s v =
      serve_all-IsValid rs _ (add_locked-IsValid env written identifier ltpk s v)
  serve_all-IsValid (removes env written identifier ∷ rs) s v =
      serve_all-IsValid rs _ (remove_locked-IsValid env written identifier s v)
  serve_all-IsValid (asks env identifier ltpk ∷ rs) s v =
      serve_all-IsValid rs _ (authorizes-IsValid from_hex env identifier ltpk s v)
  serve_all-IsValid (reloads env revalidate ∷ rs) s v =
      serve_all-IsValid rs _ (reload-Valid from_hex env revalidate s v)
  serve_all-IsValid (closes ∷ rs) s v = serve_all-IsValid rs _ (close-IsValid s v)

  -- After any calls on a new store, on files or not, whatever the directory shows to them and whether
  -- or not its writes are confirmed: there are at most eight clients, each with a name and a key of 32
  -- bytes.
  pub new_store-IsValid :
      (has_path : Bool) (rs : List Request)
      → IsValid from_hex (serve_all from_hex (new_store has_path) rs)
  new_store-IsValid has_path rs = serve_all-IsValid rs (new_store has_path) (valid_nil from_hex)
