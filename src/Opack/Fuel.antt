-- ===== src/Opack/Fuel.antt =====
-- Twice the length of the data is fuel enough for `_unpack`: every value takes at least a byte.
use atvr4samsung.Common.{
  ℕ, zero, suc, ◌+◌, ◌*◌, ◌≤◌, ◌<◌, ◌≢◌, ◌==◌, Bool, true, false, List, [], ◌∷◌, Option, none, some,
  arith, length, if◌then◌else◌,
}
use atvr4samsung.Opack.{Runtime, Value, Items, Fields, no_items, no_fields, is_hashable, set_field}
use atvr4samsung.Opack.Unpack.{
  Step, got, raised, out_of_fuel, Head, single, list_of, dict_of, held, refused, head_of, and_array,
  and_object, then_do, add_item, at_end, one_less, unpack_value, unpack_items, unpack_fields,
  unpack, enough, remember,
}
use atvr4samsung.Opack.Heads.{Within, head_of-Within}

-- The step did not run out of fuel and left fewer than n bytes.
abbrev pub Ends {ℓ} : {A : Type ℓ} → ℕ → Step A → Type 0
Ends n (got a table rest) = length rest < n
Ends n raised = Unit
Ends n out_of_fuel = ⊥

module _ {A : Type 0} where
  Ends-weaken : (m n : ℕ) (s : Step A) → m ≤ n → Ends m s → Ends n s
  Ends-weaken m n (got a table rest) h e = omega arith
  Ends-weaken m n raised h e = tt
  Ends-weaken m n out_of_fuel h e = e

Ends-then_do :
    {A B : Type 0} (m n : ℕ) (s : Step A) (f : A → List Value → List ℕ → Step B)
    → Ends m s
    → ((a : A) (table : List Value) (rest : List ℕ) → length rest < m → Ends n (f a table rest))
    → Ends n (then_do s f)
Ends-then_do m n (got a table rest) f e h = h a table rest e
Ends-then_do m n raised f e h = tt
Ends-then_do m n out_of_fuel f e h = e

Ends-and_array : (n : ℕ) (s : Step Items) → Ends n s → Ends n (and_array s)
Ends-and_array n (got xs table rest) e = e
Ends-and_array n raised e = tt
Ends-and_array n out_of_fuel e = e

Ends-and_object : (n : ℕ) (s : Step Fields) → Ends n s → Ends n (and_object s)
Ends-and_object n (got xs table rest) e = e
Ends-and_object n raised e = tt
Ends-and_object n out_of_fuel e = e

Ends-add_item : (n : ℕ) (v : Value) (s : Step Items) → Ends n s → Ends n (add_item v s)
Ends-add_item n v (got xs table rest) e = e
Ends-add_item n v raised e = tt
Ends-add_item n v out_of_fuel e = e

abbrev End-Within : ℕ → Option (Bool × List ℕ) → Type 0
End-Within n none = Unit
End-Within n (some (end, rest)) = length rest ≤ n

at_end-Within : (count : Option ℕ) (ds : List ℕ) → End-Within (length ds) (at_end count ds)
at_end-Within (some zero) ds = omega arith
at_end-Within (some (suc k)) ds = omega arith
at_end-Within none [] = tt
at_end-Within none (b ∷ ds) = closed (b == 3)
  where
    closed :
        (t : Bool) → End-Within (suc (length ds)) (some (if t then (true, ds) else (false, b ∷ ds)))
    closed true = omega arith
    closed false = omega arith

mutual
  unfolding unpack_value

  value-Ends :
      (r : Runtime) (n : ℕ) (table : List Value) (ds : List ℕ)
      → 2 * length ds + 1 ≤ n
      → Ends (length ds) (unpack_value r n table ds)
  value-Ends r zero table ds h = absurd (omega arith)
  value-Ends r (suc n) table [] h = tt
  value-Ends r (suc n) table (b ∷ ds) h =
      go (λ count. items-Ends r n count table ds (omega arith))
        (λ count. fields-Ends r n count no_fields table ds (omega arith)) (head_of r table b ds)
        (head_of-Within r table b ds)
    where
      go :
          ((count : Option ℕ) → Ends (suc (length ds)) (unpack_items r n count table ds))
          → ((count : Option ℕ)
              → Ends (suc (length ds)) (unpack_fields r n count no_fields table ds))
          → (head : Head) → Within (length ds) head
          → Ends (suc (length ds)) (elim head [
            | single add v rest ↦ got v (remember r add v table) rest
            | list_of count ↦ and_array (unpack_items r n count table ds)
            | dict_of count ↦ and_object (unpack_fields r n count no_fields table ds)
            | held v rest ↦ got v table rest
            | refused ↦ raised
          ])
      go xs fs (single add v rest) w = omega arith
      go xs fs (list_of count) w = Ends-and_array _ _ (xs count)
      go xs fs (dict_of count) w = Ends-and_object _ _ (fs count)
      go xs fs (held v rest) w = omega arith
      go xs fs refused w = tt

  items-Ends :
      (r : Runtime) (n : ℕ) (count : Option ℕ) (table : List Value) (ds : List ℕ)
      → 2 * length ds + 2 ≤ n
      → Ends (suc (length ds)) (unpack_items r n count table ds)
  items-Ends r zero count table ds h = absurd (omega arith)
  items-Ends r (suc n) count table ds h =
      go
        (Ends-then_do (length ds) (suc (length ds)) (unpack_value r n table ds) _
          (value-Ends r n table ds (omega arith))
          (λ v t rest l. Ends-add_item _ v (unpack_items r n (one_less count) t rest) (
            Ends-weaken (suc (length rest)) _ _ (omega arith)
              (items-Ends r n (one_less count) t rest (omega arith)))))
        (at_end count ds) (at_end-Within count ds)
    where
      go :
          Ends (suc (length ds)) (
            then_do
              (unpack_value r n table ds)
              (λ v t ds'. add_item v (unpack_items r n (one_less count) t ds')))
          → (o : Option (Bool × List ℕ)) → End-Within (length ds) o
          → Ends (suc (length ds)) (elim o [
            | none ↦ raised
            | some end ↦ elim end.0 [
              | true ↦ got no_items table end.1
              | false ↦
                  then_do
                    (unpack_value r n table ds)
                    (λ v t ds'. add_item v (unpack_items r n (one_less count) t ds'))
            ]
          ])
      go more none w = tt
      go more (some (true, rest)) w = omega arith
      go more (some (false, rest)) w = more

  fields-Ends :
      (r : Runtime) (n : ℕ) (count : Option ℕ) (output : Fields) (table : List Value) (ds : List ℕ)
      → 2 * length ds + 2 ≤ n
      → Ends (suc (length ds)) (unpack_fields r n count output table ds)
  fields-Ends r zero count output table ds h = absurd (omega arith)
  fields-Ends r (suc n) count output table ds h =
      go
        (Ends-then_do (length ds) (suc (length ds)) (unpack_value r n table ds) _
          (value-Ends r n table ds (omega arith))
          (λ k t rest l.
            Ends-then_do (length rest) (suc (length ds)) (unpack_value r n t rest) _
              (value-Ends r n t rest (omega arith))
              (λ v t' rest' l'. keyed k v t' rest' (is_hashable k) (
                Ends-weaken (suc (length rest')) _ _ (omega arith) (
                  fields-Ends r n (one_less count) (set_field r k v output) t' rest'
                    (omega arith))))))
        (at_end count ds) (at_end-Within count ds)
    where
      keyed :
          (k v : Value) (t : List Value) (rest : List ℕ) (hashable : Bool)
          → Ends
              (suc (length ds))
              (unpack_fields r n (one_less count) (set_field r k v output) t rest)
          → Ends (suc (length ds)) (elim hashable [
            | true ↦ unpack_fields r n (one_less count) (set_field r k v output) t rest
            | false ↦ raised
          ])
      keyed k v t rest true e = e
      keyed k v t rest false e = tt

      go :
          Ends (suc (length ds)) (
            then_do (unpack_value r n table ds) (λ k t ds'.
              then_do (unpack_value r n t ds') (λ v t' ds''. elim (is_hashable k) [
                | true ↦ unpack_fields r n (one_less count) (set_field r k v output) t' ds''
                | false ↦ raised
              ])))
          → (o : Option (Bool × List ℕ)) → End-Within (length ds) o
          → Ends (suc (length ds)) (elim o [
            | none ↦ raised
            | some end ↦ elim end.0 [
              | true ↦ got output table end.1
              | false ↦ then_do (unpack_value r n table ds) (λ k t ds'.
                  then_do (unpack_value r n t ds') (λ v t' ds''. elim (is_hashable k) [
                    | true ↦ unpack_fields r n (one_less count) (set_field r k v output) t' ds''
                    | false ↦ raised
                  ]))
            ]
          ])
      go more none w = tt
      go more (some (true, rest)) w = omega arith
      go more (some (false, rest)) w = more

-- Whatever the data, decoding ends within the fuel that `unpack` gives it: in a value, and then with
-- fewer bytes left than it was given, or in an exception.
pub unpack-Ends : (r : Runtime) (ds : List ℕ) → Ends (length ds) (unpack r ds)
unfolding unpack
unpack-Ends r ds = value-Ends r (enough ds) [] ds (omega arith)

-- Ends says in particular that the fuel was not used up.
pub unpack_total : (r : Runtime) (ds : List ℕ) → unpack r ds ≢ out_of_fuel
unpack_total r ds = not_out (unpack r ds) (unpack-Ends r ds)
  where
    not_out : (s : Step Value) → Ends (length ds) s → s ≢ out_of_fuel
    not_out (got v table rest) e h = cc
    not_out raised e h = cc
    not_out out_of_fuel e h = e
