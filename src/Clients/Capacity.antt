-- ===== src/Clients/Capacity.antt =====
-- A valid store, and what a change of one client leaves of it.
use atvr4samsung.Common.{ℕ, suc, ◌≤◌, ◌≡◌, refl, true, List, [], ◌∷◌, arith, length}
use atvr4samsung.Clients.{
  Clients, PairedClients, FromHex, get_client, set_client, delete_client, is_valid_store, are_valid,
  is_named, is_key, max_paired_clients,
}
use atvr4samsung.Clients.Calls.{is_member}

module _ (from_hex : FromHex) where
  -- At most eight clients, each with a name and a key of 32 bytes.
  abbrev pub IsValid : PairedClients → Type 0
  IsValid s = is_valid_store from_hex s.clients ≡ true

  pub valid_nil : is_valid_store from_hex [] ≡ true
  unfolding is_valid_store
  valid_nil = refl

  pub split_valid :
      (clients : Clients)
      → is_valid_store from_hex clients ≡ true
      → (length clients ≤ max_paired_clients) × (are_valid from_hex clients ≡ true)
  unfolding is_valid_store
  split_valid clients v = (ground arith, ground arith)

  pub join_valid :
      (clients : Clients)
      → length clients ≤ max_paired_clients
      → are_valid from_hex clients ≡ true
      → is_valid_store from_hex clients ≡ true
  unfolding is_valid_store
  join_valid clients l v = ground arith

  pub set-are_valid :
      (identifier key : List ℕ) (clients : Clients)
      → is_named identifier ≡ true
      → is_key from_hex key ≡ true
      → are_valid from_hex clients ≡ true
      → are_valid from_hex (set_client identifier key clients) ≡ true
  unfolding are_valid set_client
  set-are_valid identifier key [] p q v = ground arith
  set-are_valid identifier key ((i, k) ∷ clients) p q v =
      ground (arith, set-are_valid identifier key clients p q)

  pub delete-are_valid :
      (identifier : List ℕ) (clients : Clients)
      → are_valid from_hex clients ≡ true
      → are_valid from_hex (delete_client identifier clients) ≡ true
  unfolding are_valid delete_client
  delete-are_valid identifier [] v = refl
  delete-are_valid identifier ((i, k) ∷ clients) v =
      ground (arith, delete-are_valid identifier clients)

  pub length-delete :
      (identifier : List ℕ) (clients : Clients)
      → length (delete_client identifier clients) ≤ length clients
  unfolding delete_client
  length-delete identifier [] = omega arith
  length-delete identifier ((i, k) ∷ clients) = ground (arith, length-delete identifier clients)

  pub length-set :
      (identifier key : List ℕ) (clients : Clients)
      → is_member (get_client identifier clients) ≡ true
      → length (set_client identifier key clients) ≡ length clients
  unfolding set_client get_client
  length-set identifier key [] m = absurd (ground arith)
  length-set identifier key ((i, k) ∷ clients) m = ground (arith, length-set identifier key clients)

  pub length-set_le :
      (identifier key : List ℕ) (clients : Clients)
      → length (set_client identifier key clients) ≤ suc (length clients)
  unfolding set_client
  length-set_le identifier key [] = omega arith
  length-set_le identifier key ((i, k) ∷ clients) =
      ground (arith, length-set_le identifier key clients)
