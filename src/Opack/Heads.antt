-- ===== src/Opack/Heads.antt =====
-- No head of a value leaves more bytes than there are.
use atvr4samsung.Common.{
  ℕ, ◌-◌, ◌^◌, ◌%◌, ◌≤◌, ◌==◌, Bool, true, false, List, [], ◌∷◌, Option, none, some, arith, length,
  All, take, drop, length-drop, if◌then◌else◌,
}
use atvr4samsung.Opack.{Runtime, Value}
use atvr4samsung.Opack.Unpack.{
  Head, single, list_of, dict_of, held, refused, text_value, entry, held_head, first_case, cases_of,
  head_of,
}

-- A value that a head announces leaves at most n bytes.
abbrev pub Within : ℕ → Head → Type 0
Within n (single add v rest) = length rest ≤ n
Within n (list_of count) = Unit
Within n (dict_of count) = Unit
Within n (held v rest) = length rest ≤ n
Within n refused = Unit

Within-if :
    (n : ℕ) (t : Bool) (h h' : Head) → Within n h → Within n h' → Within n (if t then h else h')
Within-if n true h h' p q = p
Within-if n false h h' p q = q

Within-text_value :
    (n : ℕ) (o : Option (List ℕ)) (rest : List ℕ) → length rest ≤ n → Within n (text_value o rest)
Within-text_value n none rest h = tt
Within-text_value n (some s) rest h = h

Within-held_head :
    (n : ℕ) (o : Option Value) (rest : List ℕ) → length rest ≤ n → Within n (held_head o rest)
Within-held_head n none rest h = tt
Within-held_head n (some v) rest h = h

dropped : (n : ℕ) (ds : List ℕ) → length (drop n ds) ≤ length ds
dropped n ds = omega (arith, length-drop n ds)

dropped_twice : (m n : ℕ) (ds : List ℕ) → length (drop m (drop n ds)) ≤ length ds
dropped_twice m n ds = omega (arith, length-drop n ds, length-drop m (drop n ds))

first_case-Within :
    (n : ℕ) (cases : List (Bool × Head))
    → All (λ c. Within n c.1) cases
    → Within n (first_case cases)
unfolding first_case
first_case-Within n [] w = tt
first_case-Within n ((test, head) ∷ cases) (w, ws) =
    Within-if n test head (first_case cases) w (first_case-Within n cases ws)

pub head_of-Within :
    (r : Runtime) (table : List Value) (b : ℕ) (ds : List ℕ)
    → Within (length ds) (head_of r table b ds)
unfolding head_of cases_of
head_of-Within r table b ds = first_case-Within (length ds) (cases_of r table b ds) (
  here,
  (
    here,
    (
      here,
      (
        Within-if _ (length (take 16 ds) == 16) (single true _ _) refused (dropped 16 ds) tt,
        (
          dropped 8 ds,
          (
            here,
            (
              Within-if _ (length (take 4 ds) == 4) (single true _ _) refused (dropped 4 ds) tt,
              (
                Within-if _ (length (take 8 ds) == 8) (single true _ _) refused (dropped 8 ds) tt,
                (
                  dropped (2 ^ (b % 16)) ds,
                  (
                    Within-text_value _ (r.decode_utf8 _) _ (dropped (b - 64) ds),
                    (
                      Within-text_value _ (r.decode_utf8 _) _ (dropped_twice _ (b % 16) ds),
                      (
                        dropped (b - 112) ds,
                        (
                          dropped_twice _ (2 ^ (b % 16 - 1)) ds,
                          (
                            tt,
                            (
                              tt,
                              (
                                Within-held_head _ (entry (b - 160) table) ds here,
                                (Within-held_head _ (entry _ table) _ (dropped (b - 192) ds), tt),
                              ),
                            ),
                          ),
                        ),
                      ),
                    ),
                  ),
                ),
              ),
            ),
          ),
        ),
      ),
    ),
  ),
)
  where
    here : length ds ≤ length ds
    here = omega arith
