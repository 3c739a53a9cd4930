-- ===== src/Merchants/Admin/Roster.antt =====
-- The list of a merchant's operators as a set (programs/vesta-core/src/instructions/merchant_admin.rs).
mod Tests
use mathlib.Core.Path.{subst}
use vesta_core.Base.{
  ℕ, zero, suc, ◌-◌, ◌+◌, ◌≤◌, ◌<◌, ◌≡◌, ◌≢◌, ◌⊎◌, inl, inr, refl, ap, sym, ◌∙◌, >>=-ok, Bool, true,
  false, ◌||◌, ◌&&◌, not, Option, none, some, List, [], ◌∷◌, leb, ltb, ◌==◌, arith, if◌then◌else◌,
  length, take, contains, saturating_add, saturating_sub, u8_max, Result, ok, panic, ◌>>=◌, ◌>>◌,
  require, ok_or,
}
use vesta_core.Vesta.Constants.{Pubkey, default_key, max_operators}
use vesta_core.Vesta.Error.{VestaError}
use vesta_core.Vesta.Merchant.{Merchant}
use vesta_core.Merchants.{owner_only}
use vesta_core.Merchants.Admin.{
  position, at, set_at, prefix, add_operator, remove_operator, handle_set_merchant_operator,
}

-- The keys in the list's used part.
abbrev pub is_operator : Merchant → Pubkey → Bool
is_operator m key = contains (take m.operator_count m.operators) key

abbrev pub are_distinct : List ℕ → Bool
are_distinct [] = true
are_distinct (x ∷ xs) = not (contains xs x) && are_distinct xs

-- Four slots, of which the used ones hold different keys.
pub record IsRoster (m : Merchant) : Type 0 where
  pub slots : length m.operators ≡ max_operators
  pub used : m.operator_count ≤ max_operators
  pub distinct : are_distinct (take m.operator_count m.operators) ≡ true

-- The set of operators after a change.
abbrev pub expected : Bool → Pubkey → Merchant → Pubkey → Bool
expected true operator m key = key == operator || is_operator m key
expected false operator m key = is_operator m key && not (key == operator)

abbrev with_slots : Merchant → ℕ → ℕ → ℕ → ℕ → ℕ → Merchant
with_slots m a b c d n = record m { operators = a ∷ b ∷ c ∷ d ∷ []; operator_count = n }

-- Adding one, by the number of slots in use.
add_lem :
    (m : Merchant) (operator a b c d n key : ℕ) {m' : Merchant}
    → n ≤ 4
    → are_distinct (take n (a ∷ b ∷ c ∷ d ∷ [])) ≡ true
    → add_operator (with_slots m a b c d n) operator ≡ ok m'
    → IsRoster m' × (is_operator m' key ≡ expected true operator (with_slots m a b c d n) key)
unfolding add_operator prefix set_at
add_lem m operator a b c d zero key le ds h = ground arith
add_lem m operator a b c d (suc zero) key le ds h = ground arith
add_lem m operator a b c d (suc (suc zero)) key le ds h = ground arith
add_lem m operator a b c d (suc (suc (suc zero))) key le ds h = ground arith
add_lem m operator a b c d (suc (suc (suc (suc zero)))) key le ds h = cc
add_lem m operator a b c d (suc (suc (suc (suc (suc n))))) key le ds h = absurd (omega arith)

remove_lem :
    (m : Merchant) (operator a b c d n key : ℕ) {m' : Merchant}
    → n ≤ 4
    → are_distinct (take n (a ∷ b ∷ c ∷ d ∷ [])) ≡ true
    → remove_operator (with_slots m a b c d n) operator ≡ ok m'
    → IsRoster m' × (is_operator m' key ≡ expected false operator (with_slots m a b c d n) key)
unfolding remove_operator prefix set_at at position
remove_lem m operator a b c d zero key le ds h = ground arith
remove_lem m operator a b c d (suc zero) key le ds h = ground arith
remove_lem m operator a b c d (suc (suc zero)) key le ds h = ground arith
remove_lem m operator a b c d (suc (suc (suc zero))) key le ds h = ground arith
remove_lem m operator a b c d (suc (suc (suc (suc zero)))) key le ds h = ground arith
remove_lem m operator a b c d (suc (suc (suc (suc (suc n))))) key le ds h = absurd (omega arith)

four_slots : (xs : List ℕ) → length xs ≡ max_operators → (a b c d : ℕ) × (xs ≡ a ∷ b ∷ c ∷ d ∷ [])
four_slots [] h = absurd (omega (arith, h))
four_slots (a ∷ []) h = absurd (omega (arith, h))
four_slots (a ∷ b ∷ []) h = absurd (omega (arith, h))
four_slots (a ∷ b ∷ c ∷ []) h = absurd (omega (arith, h))
four_slots (a ∷ b ∷ c ∷ d ∷ []) h = (a, b, c, d, refl)
four_slots (a ∷ b ∷ c ∷ d ∷ e ∷ xs) h = absurd (omega (arith, h))

change_lem :
    (m : Merchant) (signer operator : Pubkey) (add : Bool) (a b c d key : ℕ) {m' : Merchant}
    → m.operator_count ≤ 4
    → are_distinct (take m.operator_count (a ∷ b ∷ c ∷ d ∷ [])) ≡ true
    → handle_set_merchant_operator (with_slots m a b c d m.operator_count) signer operator add
      ≡ ok m'
    → IsRoster m'
      × (is_operator m' key ≡ expected add operator (with_slots m a b c d m.operator_count) key)
unfolding handle_set_merchant_operator
change_lem m signer operator true a b c d key le ds h =
    let (_, _, h) = >>=-ok (owner_only (with_slots m a b c d m.operator_count) signer) _ h in
    add_lem m operator a b c d m.operator_count key le ds h
change_lem m signer operator false a b c d key le ds h =
    let (_, _, h) = >>=-ok (owner_only (with_slots m a b c d m.operator_count) signer) _ h in
    remove_lem m operator a b c d m.operator_count key le ds h

-- A change of a merchant's operators that goes through keeps the list well formed, with four slots and
-- different keys in the used ones, and changes the set of operators by that one key: after adding it,
-- the operators are the old ones and the key, and after removing it, the old ones other than the key.
pub operator_set :
    (m : Merchant) (signer operator : Pubkey) (add : Bool) (key : Pubkey) {m' : Merchant}
    → IsRoster m
    → handle_set_merchant_operator m signer operator add ≡ ok m'
    → IsRoster m' × (is_operator m' key ≡ expected add operator m key)
operator_set m signer operator add key {m'} r h =
    let (a, b, c, d, e) = four_slots m.operators r.slots in
    let same : m ≡ with_slots m a b c d m.operator_count =
      ap (λ xs. record m { operators = xs }) e in
    let (roster, set) =
      change_lem m signer operator add a b c d key r.used
        (subst (λ xs. are_distinct (take m.operator_count xs) ≡ true) e r.distinct)
        (subst (λ n. handle_set_merchant_operator n signer operator add ≡ ok m') same h) in
    (roster, set ∙ ap (λ n. expected add operator n key) (sym same))
