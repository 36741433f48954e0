-- ===== src/Clients/Moments.antt =====
-- What a reload takes from the moments of the directory.
use mathlib.Core.Option.{some-injective, none-ne-some}
use mathlib.Core.Path.{subst}
use atvr4samsung.Common.{
  ℕ, ◌+◌, ◌==◌, ◌≡◌, ◌⊎◌, inl, inr, refl, sym, ap, ◌∙◌, Bool, true, false, ◌&&◌, [], Option, none,
  some, arith, ==_iff, if◌then◌else◌,
}
use atvr4samsung.Auth.Proof.{bind_some, guard_some}
use atvr4samsung.Clients.{
  Clients, PairedClients, Moment, Stamps, Stamp, Opening, not_found, io_error, opened, FromHex,
  stamp_eq, stamps_eq, read_content, read_moment, stamps_of, tombstone, is_valid_store,
}
use atvr4samsung.Clients.Calls.{
  Call, attempt, reload_from_directory, mark_unsafe, reload_opening, reload_revalidated,
}

stamp_eq→eq : (a b : Stamp) → stamp_eq a b ≡ true → a ≡ b
stamp_eq→eq none none e = refl
stamp_eq→eq none (some b) e = cc
stamp_eq→eq (some a) none e = cc
stamp_eq→eq (some a) (some b) e = ap some ((==_iff a b).0 e)

both : (a b : Bool) → (a && b) ≡ true → (a ≡ true) × (b ≡ true)
both true true e = (refl, refl)
both true false e = absurd (ground arith)
both false b e = absurd (ground arith)

pub stamps_eq→eq : (s t : Stamps) → stamps_eq s t ≡ true → s ≡ t
stamps_eq→eq s t e =
    let (p, q) =
      both (stamp_eq s.clients t.clients && stamp_eq s.legacy_clear_all t.legacy_clear_all) _ e in
    let (a, b) = both (stamp_eq s.clients t.clients) _ p in
    cc (
      stamp_eq→eq s.clients t.clients a,
      stamp_eq→eq s.legacy_clear_all t.legacy_clear_all b,
      stamp_eq→eq s.identity_reset t.identity_reset q,
    )

-- The content of the record with a stamp: a file is replaced, not rewritten, so that its stamp tells
-- what is in it.
abbrev pub Contents : Type 0
Contents = ℕ → Clients

abbrev pub content_at : Contents → Stamp → Clients
content_at contents none = []
content_at contents (some stamp) = contents stamp

abbrev pub Names : Contents → Moment → Type 0
Names contents m =
    (stamp : ℕ) (clients : Clients)
    → m.stamps.clients ≡ some stamp
    → m.content ≡ some clients
    → clients ≡ contents stamp

abbrev pub Coherent : Contents → PairedClients → Type 0
Coherent contents s = s.clients ≡ content_at contents s.stamps.clients

-- The store holds what a moment shows, or nothing.
abbrev pub Shows : (ℕ → Moment) → PairedClients → Type 0
Shows at s = ((k : ℕ) × (stamps_of (at k) ≡ some s.stamps)) ⊎ (s.clients ≡ [])

module _ (contents : Contents) (from_hex : FromHex) where
  read-content :
      (m : Moment) (stamp : Stamp) (content : Option Clients) (r : Clients × Stamp)
      → ((st : ℕ) (clients : Clients)
          → stamp ≡ some st
          → content ≡ some clients
          → clients ≡ contents st)
      → read_content from_hex stamp content ≡ some r
      → r.0 ≡ content_at contents r.1
  read-content m none content r n e =
      subst (λ (x : Clients × Stamp). x.0 ≡ content_at contents x.1) (some-injective _ _ e) refl
  read-content m (some stamp) none r n e = absurd (none-ne-some _ e)
  read-content m (some stamp) (some clients) r n e =
      let (v, p) = guard_some (is_valid_store from_hex clients) e in
      subst (λ (x : Clients × Stamp). x.0 ≡ content_at contents x.1) p (n stamp clients refl refl)

  read-moment :
      (m : Moment) (r : Clients × Stamp)
      → Names contents m
      → read_moment from_hex m ≡ some r
      → r.0 ≡ content_at contents r.1
  read-moment m r n e = fine m.fails e
    where
      fine :
          (b : Bool)
          → (if b then none else read_content from_hex m.stamps.clients m.content) ≡ some r
          → r.0 ≡ content_at contents r.1
      fine true e = absurd (none-ne-some _ e)
      fine false e = read-content m m.stamps.clients m.content r n e

  -- A round that is accepted gives the store of its last moment.
  attempt-Shows :
      (at : ℕ → Moment) (k : ℕ) (s t : PairedClients)
      → ((j : ℕ) → Names contents (at j))
      → attempt from_hex at k s ≡ some (some t)
      → (stamps_of (at (k + 4)) ≡ some t.stamps) × Coherent contents t
  unfolding attempt
  attempt-Shows at k s t n e =
      let (before, p, e1) = bind_some (stamps_of (at k)) e in
      let (read, q, e2) = bind_some (read_moment from_hex (at (k + 1))) e1 in
      let (legacy, u, e3) = bind_some (tombstone (λ st. st.legacy_clear_all) (at (k + 2))) e2 in
      let (reset, v, e4) = bind_some (tombstone (λ st. st.identity_reset) (at (k + 3))) e3 in
      let (after, w, e5) = bind_some (stamps_of (at (k + 4))) e4 in
      accepted before after read
        (stamp_eq before.legacy_clear_all legacy && stamp_eq before.identity_reset reset) w
        (read-moment (at (k + 1)) read (n (k + 1)) q) (guard_some _ (some-injective _ _ e5))
    where
      accepted :
          (before after : Stamps) (read : Clients × Stamp) (rest : Bool)
          → stamps_of (at (k + 4)) ≡ some after
          → read.0 ≡ content_at contents read.1
          → ((stamps_eq before after && (stamp_eq before.clients read.1 && rest)) ≡ true)
            × (record s { clients = read.0; stamps = after } ≡ t)
          → (stamps_of (at (k + 4)) ≡ some t.stamps) × Coherent contents t
      accepted before after read rest w r (g, f) =
          let (a, b) = both (stamps_eq before after) _ g in
          let (c, d) = both (stamp_eq before.clients read.1) rest b in
          subst
            (λ (t : PairedClients). (stamps_of (at (k + 4)) ≡ some t.stamps) × Coherent contents t)
            f
            (
              w,
              r
                  ∙ ap (content_at contents) (
                      sym (stamp_eq→eq before.clients read.1 c)
                      ∙ ap (λ (x : Stamps). x.clients) (stamps_eq→eq before after a)),
            )

  abbrev pub Good : (ℕ → Moment) → Call Unit → Type 0
  Good at r = r.1 ≡ some tt → Shows at r.0 × Coherent contents r.0

  pub raises-Good : (at : ℕ → Moment) (s : PairedClients) → Good at (s, none)
  raises-Good at s e = absurd (none-ne-some tt e)

  module _ (at : ℕ → Moment) (n : (j : ℕ) → Names contents (at j)) where
    pub directory-Good : (s : PairedClients) → Good at (reload_from_directory from_hex at s)
    unfolding reload_from_directory
    directory-Good s = first (attempt from_hex at 0 s) refl
      where
        second :
            (o : Option (Option PairedClients))
            → attempt from_hex at 5 s ≡ o
            → Good at
                (elim o [ none ↦ (s, none) | some (some t) ↦ (t, some tt) | some none ↦ (s, none) ])
        second none p = raises-Good at s
        second (some none) p = raises-Good at s
        second (some (some t)) p = λ e. let (w, c) = attempt-Shows at 5 s t n p in (inl (9, w), c)

        first :
            (o : Option (Option PairedClients))
            → attempt from_hex at 0 s ≡ o
            → Good at (elim o [
              | none ↦ (s, none)
              | some (some t) ↦ (t, some tt)
              | some none ↦ elim (attempt from_hex at 5 s) [
                | none ↦ (s, none)
                | some (some t) ↦ (t, some tt)
                | some none ↦ (s, none)
              ]
            ])
        first none p = raises-Good at s
        first (some none) p = second (attempt from_hex at 5 s) refl
        first (some (some t)) p = λ e. let (w, c) = attempt-Shows at 0 s t n p in (inl (4, w), c)

    pub opening-Good : (s : PairedClients) (o : Opening) → Good at (reload_opening from_hex at s o)
    opening-Good s not_found = λ e. (inr refl, refl)
    opening-Good s io_error = raises-Good at s
    opening-Good s (opened chain) = directory-Good (record s { chain = some chain })

    pub revalidated-Good :
        (s : PairedClients) (chain : ℕ) (o : Opening)
        → Good at (reload_revalidated from_hex at s chain o)
    revalidated-Good s chain not_found = raises-Good at (mark_unsafe s)
    revalidated-Good s chain io_error = raises-Good at (mark_unsafe s)
    revalidated-Good s chain (opened replacement) = matched (chain == replacement)
      where
        matched :
            (b : Bool)
            → Good at (if b then reload_from_directory from_hex at s else (mark_unsafe s, none))
        matched true = directory-Good s
        matched false = raises-Good at (mark_unsafe s)
