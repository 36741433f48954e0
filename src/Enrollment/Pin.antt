-- ===== src/Enrollment/Pin.antt =====
-- The windows that `open_locked` opens, and what becomes of those before them.
use mathlib.Core.Path.{subst}
use atvr4samsung.Common.{
  ℕ, zero, suc, ◌+◌, ◌≡◌, refl, Bool, true, false, not, ◌&&◌, List, [], ◌∷◌, Option, none, some,
  All, arith, length, leb, if◌then◌else◌,
}
use atvr4samsung.Common.Int.{pos}
use atvr4samsung.Enrollment.{
  Digits, PairingWindow, Store, is_strong_window_pin, is_generation, is_valid_binding, active,
}
use atvr4samsung.Enrollment.Opening.{
  Drawn, drew, failed, undrawn, format_pin, generate_window_pin, is_pin_of, is_generation_of,
  fresh_pin, fresh_generation, Opened, opened, reset_error, value_error, undecided, write_window,
  open_with, open_locked, max_duration,
}

-- A strong PIN that is not the previous window's.
abbrev pub IsFresh : Digits → Option PairingWindow → List ℕ → Type 0
IsFresh d previous pin = (is_strong_window_pin d pin ≡ some true) × (is_pin_of previous pin ≡ false)

abbrev Draws : {A B : Type 0} → (A → Type 0) → Drawn A B → Type 0
Draws P (drew a rest) = P a
Draws P failed = Unit
Draws P undrawn = Unit

generate_window_pin-strong :
    (d : Digits) (draws : List ℕ)
    → Draws (λ pin. is_strong_window_pin d pin ≡ some true) (generate_window_pin d draws)
unfolding generate_window_pin
generate_window_pin-strong d [] = tt
generate_window_pin-strong d (n ∷ draws) =
    checked (is_strong_window_pin d (format_pin n)) refl (generate_window_pin-strong d draws)
  where
    checked :
        (o : Option Bool)
        → is_strong_window_pin d (format_pin n) ≡ o
        → Draws (λ pin. is_strong_window_pin d pin ≡ some true) (generate_window_pin d draws)
        → Draws
            (λ pin. is_strong_window_pin d pin ≡ some true)
            (elim o [
              | none ↦ failed
              | some true ↦ drew (format_pin n) draws
              | some false ↦ generate_window_pin d draws
            ])
    checked none e r = tt
    checked (some true) e r = e
    checked (some false) e r = r

fresh_pin-IsFresh :
    (rounds : ℕ) (d : Digits) (previous : Option PairingWindow) (draws : List ℕ)
    → Draws (IsFresh d previous) (fresh_pin rounds d previous draws)
unfolding fresh_pin
fresh_pin-IsFresh zero d previous draws = tt
fresh_pin-IsFresh (suc rounds) d previous draws =
    drawn (generate_window_pin d draws) (generate_window_pin-strong d draws)
      (fresh_pin-IsFresh rounds d previous)
  where
    other :
        (pin rest : List ℕ) (t : Bool)
        → is_pin_of previous pin ≡ t
        → is_strong_window_pin d pin ≡ some true
        → ((more : List ℕ) → Draws (IsFresh d previous) (fresh_pin rounds d previous more))
        → Draws
            (IsFresh d previous)
            (elim t [ true ↦ fresh_pin rounds d previous rest | false ↦ drew pin rest ])
    other pin rest true e s r = r rest
    other pin rest false e s r = (s, e)

    drawn :
        (o : Drawn (List ℕ) ℕ)
        → Draws (λ pin. is_strong_window_pin d pin ≡ some true) o
        → ((more : List ℕ) → Draws (IsFresh d previous) (fresh_pin rounds d previous more))
        → Draws (IsFresh d previous) (elim o [
          | drew pin rest ↦ elim (is_pin_of previous pin) [
            | true ↦ fresh_pin rounds d previous rest
            | false ↦ drew pin rest
          ]
          | failed ↦ failed
          | undrawn ↦ undrawn
        ])
    drawn (drew pin rest) s r = other pin rest (is_pin_of previous pin) refl s r
    drawn failed s r = tt
    drawn undrawn s r = tt

abbrev pub IsNew : Option PairingWindow → List ℕ → Type 0
IsNew previous generation =
    (is_generation generation ≡ true) × (is_generation_of previous generation ≡ false)

fresh_generation-IsNew :
    (previous : Option PairingWindow) (tokens : List (List ℕ))
    → All (λ token. is_generation token ≡ true) tokens
    → Draws (IsNew previous) (fresh_generation previous tokens)
unfolding fresh_generation
fresh_generation-IsNew previous [] h = tt
fresh_generation-IsNew previous (token ∷ tokens) (t, ts) =
    other (is_generation_of previous token) refl (fresh_generation-IsNew previous tokens ts)
  where
    other :
        (b : Bool)
        → is_generation_of previous token ≡ b
        → Draws (IsNew previous) (fresh_generation previous tokens)
        → Draws (IsNew previous) (if b then fresh_generation previous tokens else drew token tokens)
    other true e r = r
    other false e r = (t, e)

-- What `open_locked` opens, over the window that was active.
pub record Opens (d : Digits) (s : Store) (previous : Option PairingWindow) (expires_at : ℕ)
    (server_identifier server_generation : List ℕ) (w : PairingWindow) (t : Store) : Type 0 where
  pub no_reset : s.reset_in_progress ≡ false
  pub binding : is_valid_binding server_identifier server_generation ≡ true
  pub pin : IsFresh d previous w.pin
  pub generation : IsNew previous w.generation
  pub expiry : w.expires_at ≡ pos expires_at
  pub identifier : w.server_identifier ≡ server_identifier
  pub server : w.server_generation ≡ server_generation
  pub stored : t ≡ write_window w s

abbrev Result : (PairingWindow → Store → Type 0) → Opened → Type 0
Result P (opened w t) = P w t
Result P reset_error = Unit
Result P value_error = Unit
Result P undecided = Unit

Result-if :
    (P : PairingWindow → Store → Type 0) (t : Bool) (x y : Opened)
    → (t ≡ true → Result P x)
    → (t ≡ false → Result P y)
    → Result P (if t then x else y)
Result-if P true x y p q = p refl
Result-if P false x y p q = q refl

module _ (d : Digits) (ticks : ℕ) (s : Store) (now later duration : ℕ) (draws : List ℕ)
    (tokens : List (List ℕ)) (server_identifier server_generation : List ℕ) where
  abbrev OpensHere : PairingWindow → Store → Type 0
  OpensHere = Opens d s (active d s now) (later + duration) server_identifier server_generation

  open_locked-Result :
      All (λ token. is_generation token ≡ true) tokens
      → Result OpensHere (
          open_locked d ticks s now later duration draws tokens server_identifier server_generation)
  unfolding open_locked
  open_locked-Result h =
      Result-if OpensHere s.reset_in_progress _ _ (λ r. tt)
        (λ r.
          Result-if OpensHere (not (leb 1 duration && leb duration (max_duration ticks))) _ _
            (λ b. tt)
            (λ b.
              Result-if OpensHere (not (is_valid_binding server_identifier server_generation)) _ _
                (λ v. tt)
                (λ v.
                  drawn r (ground arith) (fresh_pin (suc (length draws)) d (active d s now) draws)
                    (fresh_generation (active d s now) tokens)
                    (fresh_pin-IsFresh (suc (length draws)) d (active d s now) draws)
                    (fresh_generation-IsNew (active d s now) tokens h))))
    where
      drawn :
          s.reset_in_progress ≡ false
          → is_valid_binding server_identifier server_generation ≡ true
          → (p : Drawn (List ℕ) ℕ) (g : Drawn (List ℕ) (List ℕ))
          → Draws (IsFresh d (active d s now)) p
          → Draws (IsNew (active d s now)) g
          → Result OpensHere
              (open_with s (later + duration) server_identifier server_generation p g)
      drawn r v (drew pin more) (drew generation others) f n = record {
        no_reset = r;
        binding = v;
        pin = f;
        generation = n;
        expiry = refl;
        identifier = refl;
        server = refl;
        stored = refl;
      }
      drawn r v failed g f n = tt
      drawn r v (drew pin more) failed f n = tt
      drawn r v (drew pin more) undrawn f n = tt
      drawn r v undrawn g f n = tt

  pub open_locked-Opens :
      (w : PairingWindow) (t : Store)
      → All (λ token. is_generation token ≡ true) tokens
      → open_locked d ticks s now later duration draws tokens server_identifier server_generation
        ≡ opened w t
      → OpensHere w t
  open_locked-Opens w t h e = subst (Result OpensHere) e (open_locked-Result h)
