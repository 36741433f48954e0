-- ===== src/Clients/Reading.antt =====
-- Reading the record, and deciding on a client, keep the store valid.
use mathlib.Core.Option.{some-injective, none-ne-some}
use mathlib.Core.Path.{subst}
use atvr4samsung.Common.{
  ℕ, ◌+◌, ◌==◌, ◌≡◌, refl, Bool, true, false, not, ◌&&◌, List, Option, none, some, if◌then◌else◌,
}
use atvr4samsung.Auth.Proof.{bind_some, guard_some}
use atvr4samsung.Clients.{
  Clients, PairedClients, Env, Moment, Stamps, Stamp, Opening, not_found, io_error, opened, FromHex,
  stamps_eq, stamp_eq, read_content, read_moment, stamps_of, tombstone, is_valid_store,
}
use atvr4samsung.Clients.Calls.{
  Call, attempt, reload_from_directory, is_mutable, mark_unsafe, reload_opening, reload_revalidated,
  reload_chain, reload, later, refresh_current, refresh_chain, refresh_if_changed, with_marker,
  authority_reset, decide, authorizes, AddError, saved_clients, store_error, io_failed,
}
use atvr4samsung.Clients.Capacity.{IsValid, valid_nil}

module _ (from_hex : FromHex) where
  valid-read_content :
      (stamp : Stamp) (content : Option Clients) (r : Clients × Stamp)
      → read_content from_hex stamp content ≡ some r
      → is_valid_store from_hex r.0 ≡ true
  valid-read_content none content r e =
      subst (λ (x : Clients × Stamp). is_valid_store from_hex x.0 ≡ true) (some-injective _ _ e)
        (valid_nil from_hex)
  valid-read_content (some stamp) none r e = absurd (none-ne-some _ e)
  valid-read_content (some stamp) (some clients) r e =
      let (v, p) = guard_some (is_valid_store from_hex clients) e in
      subst (λ (x : Clients × Stamp). is_valid_store from_hex x.0 ≡ true) p v

  valid-read_moment :
      (m : Moment) (r : Clients × Stamp)
      → read_moment from_hex m ≡ some r
      → is_valid_store from_hex r.0 ≡ true
  valid-read_moment m r = fine m.fails
    where
      fine :
          (b : Bool)
          → (if b then none else read_content from_hex m.stamps.clients m.content) ≡ some r
          → is_valid_store from_hex r.0 ≡ true
      fine true e = absurd (none-ne-some _ e)
      fine false e = valid-read_content m.stamps.clients m.content r e

  attempt-IsValid :
      (at : ℕ → Moment) (k : ℕ) (s t : PairedClients)
      → attempt from_hex at k s ≡ some (some t)
      → IsValid from_hex t
  unfolding attempt
  attempt-IsValid at k s t e =
      let (before, p, e1) = bind_some (stamps_of (at k)) e in
      let (read, q, e2) = bind_some (read_moment from_hex (at (k + 1))) e1 in
      let (legacy, u, e3) = bind_some (tombstone (λ st. st.legacy_clear_all) (at (k + 2))) e2 in
      let (reset, v, e4) = bind_some (tombstone (λ st. st.identity_reset) (at (k + 3))) e3 in
      let (after, w, e5) = bind_some (stamps_of (at (k + 4))) e4 in
      let (g, f) =
        guard_some
          (stamps_eq before after
            && (stamp_eq before.clients read.1
                && (stamp_eq before.legacy_clear_all legacy
                    && stamp_eq before.identity_reset reset)))
          (some-injective _ _ e5) in
      subst (IsValid from_hex) f (valid-read_moment (at (k + 1)) read q)

  abbrev Valid : Call Unit → Type 0
  Valid r = IsValid from_hex r.0

  module _ (at : ℕ → Moment) where
    directory-Valid :
        (s : PairedClients) → IsValid from_hex s → Valid (reload_from_directory from_hex at s)
    unfolding reload_from_directory
    directory-Valid s v = first (attempt from_hex at 0 s) refl
      where
        second :
            (o : Option (Option PairedClients))
            → attempt from_hex at 5 s ≡ o
            → Valid
                (elim o [ none ↦ (s, none) | some (some t) ↦ (t, some tt) | some none ↦ (s, none) ])
        second none p = v
        second (some none) p = v
        second (some (some t)) p = attempt-IsValid at 5 s t p

        first :
            (o : Option (Option PairedClients))
            → attempt from_hex at 0 s ≡ o
            → Valid (elim o [
              | none ↦ (s, none)
              | some (some t) ↦ (t, some tt)
              | some none ↦ elim (attempt from_hex at 5 s) [
                | none ↦ (s, none)
                | some (some t) ↦ (t, some tt)
                | some none ↦ (s, none)
              ]
            ])
        first none p = v
        first (some none) p = second (attempt from_hex at 5 s) refl
        first (some (some t)) p = attempt-IsValid at 0 s t p

    opening-Valid :
        (s : PairedClients) (o : Opening)
        → IsValid from_hex s
        → Valid (reload_opening from_hex at s o)
    opening-Valid s not_found v = (valid_nil from_hex)
    opening-Valid s io_error v = v
    opening-Valid s (opened chain) v = directory-Valid (record s { chain = some chain }) v

    revalidated-Valid :
        (s : PairedClients) (chain : ℕ) (o : Opening)
        → IsValid from_hex s
        → Valid (reload_revalidated from_hex at s chain o)
    revalidated-Valid s chain not_found v = (valid_nil from_hex)
    revalidated-Valid s chain io_error v = (valid_nil from_hex)
    revalidated-Valid s chain (opened replacement) v = matched (chain == replacement)
      where
        matched :
            (b : Bool)
            → Valid (if b then reload_from_directory from_hex at s else (mark_unsafe s, none))
        matched true = directory-Valid s v
        matched false = (valid_nil from_hex)

  Valid-if : (b : Bool) (p q : Call Unit) → Valid p → Valid q → Valid (if b then p else q)
  Valid-if true p q x y = x
  Valid-if false p q x y = y

  pub reload-Valid :
      (env : Env) (revalidate : Bool) (s : PairedClients)
      → IsValid from_hex s
      → Valid (reload from_hex env revalidate s)
  unfolding reload
  reload-Valid env revalidate s v =
      Valid-if (not s.has_path) (s, some tt) _ v
        (Valid-if (not (is_mutable s)) (s, none) _ v (chained s.chain))
    where
      chained : (o : Option ℕ) → Valid (reload_chain from_hex env revalidate s o)
      chained none = opening-Valid env.at s env.opening v
      chained (some chain) =
          Valid-if revalidate _ _ (revalidated-Valid env.at s chain env.opening v)
            (directory-Valid env.at s v)

  refresh-Valid :
      (env : Env) (s : PairedClients)
      → IsValid from_hex s
      → Valid (refresh_if_changed from_hex env s)
  unfolding refresh_if_changed
  refresh-Valid env s v = Valid-if (not (is_mutable s)) (s, none) _ v (chained s.chain)
    where
      looked : (o : Option Stamps) → Valid (refresh_current from_hex env s o)
      looked none = v
      looked (some current) =
          Valid-if (stamps_eq current s.stamps) (s, some tt) _ v (reload-Valid (later env) true s v)

      chained : (o : Option ℕ) → Valid (refresh_chain from_hex env s o)
      chained none = reload-Valid env false s v
      chained (some chain) =
          Valid-if env.chain_is_current _ _ (looked (stamps_of (env.at 0)))
            (reload-Valid env true s v)

  pub authority-IsValid :
      (env : Env) (s : PairedClients)
      → IsValid from_hex s
      → IsValid from_hex (authority_reset from_hex env s).0
  unfolding authority_reset
  authority-IsValid env s v = stored s.has_path
    where
      marked : (r : Call Unit) → Valid r → IsValid from_hex (with_marker r).0
      marked (t, none) w = w
      marked (t, some u) w = w

      first : Call Bool → PairedClients
      first r = r.0

      stored :
          (b : Bool)
          → IsValid from_hex (
              first
                (if b then with_marker (refresh_if_changed from_hex env s) else (s, some false)))
      stored true = marked (refresh_if_changed from_hex env s) (refresh-Valid env s v)
      stored false = v

  pub authorizes-IsValid :
      (env : Env) (identifier ltpk : List ℕ) (s : PairedClients)
      → IsValid from_hex s
      → IsValid from_hex (authorizes from_hex env identifier ltpk s).0
  unfolding authorizes
  authorizes-IsValid env identifier ltpk s v =
      decided (authority_reset from_hex env s) (authority-IsValid env s v)
    where
      decided :
          (r : Call Bool) → IsValid from_hex r.0 → IsValid from_hex (decide identifier ltpk r).0
      decided (t, none) w = w
      decided (t, some true) w = w
      decided (t, some false) w = w

  pub saved-IsValid :
      (env : Env) (written : Bool) (updated : Clients) (s : PairedClients)
      → IsValid from_hex s
      → is_valid_store from_hex updated ≡ true
      → IsValid from_hex (saved_clients from_hex env written updated s).0
  saved-IsValid env written updated s v u = stored s.has_path written
    where
      first : PairedClients × Option AddError → PairedClients
      first r = r.0

      stored :
          (b w : Bool)
          → IsValid from_hex (
              first (
                if not b
                then (record s { clients = updated }, none)
                else if not w
                then (s, some io_failed)
                else (
                  (reload from_hex env true (record s { clients = updated })).0,
                  elim (reload from_hex env true (record s { clients = updated })).1 [
                    | none ↦ some store_error
                    | some u ↦ none
                  ],
                )))
      stored false w = u
      stored true false = v
      stored true true = reload-Valid env true (record s { clients = updated }) u
