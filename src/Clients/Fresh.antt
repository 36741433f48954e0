-- ===== src/Clients/Fresh.antt =====
-- What an authorization rests on: a moment of the directory while it was decided.
use atvr4samsung.Common.{ℕ, ◌≡◌, false, List, Option, none, some}
use atvr4samsung.Clients.{Moment, FromHex, get_client, hex}
use atvr4samsung.Clients.Moments.{Contents, content_at}

module _ (contents : Contents) (from_hex : FromHex) where
  -- At that moment no recovery marker is there and the record has the client's key.
  abbrev pub Grants : Moment → List ℕ → List ℕ → Type 0
  Grants m identifier ltpk =
      (m.fails ≡ false)
      × (m.stamps.legacy_clear_all ≡ none)
      × (m.stamps.identity_reset ≡ none)
      × (get_client identifier (content_at contents m.stamps.clients) ≡ some (hex ltpk))
