-- ===== src/Enrollment/Replaced.antt =====
-- A window that is open is read back until it expires, and ends the one before it.
use mathlib.Core.Option.{some-injective, none-ne-some}
use atvr4samsung.Common.{
  ℕ, ◌+◌, ◌≡◌, refl, sym, ap, ◌∙◌, Bool, true, false, List, Option, none, some, All, ltb,
  if◌then◌else◌,
}
use atvr4samsung.Common.Bytes.{bytes_eq}
use atvr4samsung.Common.Options.{◌>>=◌}
use atvr4samsung.Enrollment.{
  Digits, PairingWindow, Store, Document, is_strong_window_pin, is_generation, is_valid_binding,
  active, parse_window, active_for_server, mutate_if_current, if_current, for_server, get,
  is_server, is_later,
}
use atvr4samsung.Enrollment.Opening.{opened, is_pin_of, is_generation_of, write_window, open_locked}
use atvr4samsung.Enrollment.Pin.{Opens, open_locked-Opens}

abbrev document_of : PairingWindow → Option Document
document_of w = (write_window w (record { document = none; reset_in_progress = false })).document

-- What was written is parsed as the window.
parse-write_window :
    (d : Digits) (w : PairingWindow)
    → is_strong_window_pin d w.pin ≡ some true
    → is_generation w.generation ≡ true
    → is_valid_binding w.server_identifier w.server_generation ≡ true
    → (document_of w >>= parse_window d) ≡ some w
unfolding parse_window get bytes_eq
parse-write_window d w p g b = rw p (rw g (rw b refl))

unexpired : ℕ → PairingWindow → Option PairingWindow
unexpired time w = if is_later w.expires_at time then some w else none

active-write_window :
    (d : Digits) (s : Store) (w : PairingWindow) (time : ℕ)
    → s.reset_in_progress ≡ false
    → (document_of w >>= parse_window d) ≡ some w
    → active d (write_window w s) time ≡ unexpired time w
unfolding active unexpired
active-write_window d s w time r p =
    ap (λ b. if b then none else ((document_of w >>= parse_window d) >>= unexpired time)) r
    ∙ ap (λ o. o >>= unexpired time) p

Opens-active :
    (d : Digits) (s : Store) (previous : Option PairingWindow) (expires_at : ℕ) (i g : List ℕ)
    (w : PairingWindow) (t : Store) (time : ℕ)
    → Opens d s previous expires_at i g w t
    → active d t time ≡ (if ltb time expires_at then some w else none)
unfolding unexpired
Opens-active d s previous expires_at i g w t time o =
    ap (λ t. active d t time) o.stored
    ∙ active-write_window d s w time o.no_reset (
        parse-write_window d w o.pin.0 o.generation.0 (
          ap (λ x. is_valid_binding x w.server_generation) o.identifier
          ∙ ap (is_valid_binding i) o.server
          ∙ o.binding))
    ∙ ap (λ x. if is_later x time then some w else none) o.expiry

-- From its opening on a window is the active one until its expiry is reached, and none is from then on.
pub active-open_locked :
    (d : Digits) (ticks : ℕ) (s : Store) (now later duration : ℕ) (draws : List ℕ)
    (tokens : List (List ℕ)) (server_identifier server_generation : List ℕ) (w : PairingWindow)
    (t : Store) (time : ℕ)
    → All (λ token. is_generation token ≡ true) tokens
    → open_locked d ticks s now later duration draws tokens server_identifier server_generation
      ≡ opened w t
    → active d t time ≡ (if ltb time (later + duration) then some w else none)
active-open_locked d ticks s now later duration draws tokens i g w t time h e =
    Opens-active d s _ (later + duration) i g w t time
      (open_locked-Opens d ticks s now later duration draws tokens i g w t h e)

abbrev current_or {ℓ} :
    {A : Type ℓ} → List ℕ → A → List ℕ → List ℕ → Bool → Option PairingWindow → Bool × Option A
current_or generation mutation i g valid o =
    if_current generation mutation (if valid then o >>= for_server i g else none)

-- An enrollment of another generation than the active window's does not run.
stale {ℓ} :
    {A : Type ℓ} (generation : List ℕ) (mutation : A) (i g : List ℕ) (valid : Bool)
    (o : Option PairingWindow)
    → ((w : PairingWindow) → o ≡ some w → bytes_eq w.generation generation ≡ false)
    → current_or generation mutation i g valid o ≡ (false, none)
stale generation mutation i g false o h = refl
stale generation mutation i g true none h = refl
stale generation mutation i g true (some w) h = served (is_server i g w)
  where
    served :
        (b : Bool) → if_current generation mutation (if b then some w else none) ≡ (false, none)
    served false = refl
    served true = ap (λ b. if b then (true, some mutation) else (false, none)) (h w refl)

-- A window that is opened over an active one has another PIN and another generation, and the
-- enrollment that began under the one before runs for no server at any time.
pub open_locked-replaces :
    (A : Type 0) (mutation : A) (d : Digits) (ticks : ℕ) (s : Store) (now later duration : ℕ)
    (draws : List ℕ) (tokens : List (List ℕ)) (server_identifier server_generation : List ℕ)
    (old w : PairingWindow) (t : Store) (time : ℕ) (i g : List ℕ)
    → All (λ token. is_generation token ≡ true) tokens
    → active d s now ≡ some old
    → open_locked d ticks s now later duration draws tokens server_identifier server_generation
      ≡ opened w t
    → (bytes_eq w.pin old.pin ≡ false)
      × (bytes_eq w.generation old.generation ≡ false)
      × (mutate_if_current d t time old.generation i g mutation ≡ (false, none))
unfolding mutate_if_current active_for_server
open_locked-replaces A mutation d ticks s now later duration draws tokens si sg old w t time i g h p
      e =
    let o = open_locked-Opens d ticks s now later duration draws tokens si sg w t h e in
    let other = sym (ap (λ x. is_generation_of x w.generation) p) ∙ o.generation.1 in
    (
      sym (ap (λ x. is_pin_of x w.pin) p) ∙ o.pin.1,
      other,
      stale old.generation mutation i g (is_valid_binding i g) (active d t time) (λ v a.
          held v other (ltb time (later + duration))
            (sym a ∙ Opens-active d s _ (later + duration) si sg w t time o)),
    )
  where
    held :
        (v : PairingWindow)
        → bytes_eq w.generation old.generation ≡ false
        → (b : Bool) → some v ≡ (if b then some w else none)
        → bytes_eq v.generation old.generation ≡ false
    held v n true a =
        ap (λ x. bytes_eq x old.generation)
          (ap (λ (x : PairingWindow). x.generation) (some-injective _ _ a))
        ∙ n
    held v n false a = absurd (none-ne-some v (sym a))
