-- ===== src/Base/Outcome.antt =====
-- The result of an instruction handler. A handler that returns an error reverts its transaction,
-- so an error carries no state.
use mathlib.Core.Path.{◌≡◌, refl}
use mathlib.Core.Bool.{Bool, true, false}
use mathlib.Core.Option.{Option, none, some}

-- `err` is one of the program's own error codes; `constraint` is Anchor's refusal of an account
-- whose address is not the one that its `seeds` derive, or that `init` finds already in use; `panic` is a slice or shift out of range.
pub data Result {ℓ κ} (E : Type ℓ) (A : Type κ) : Type (ℓ ⊔ κ) where
  ok : A → Result E A
  err : E → Result E A
  constraint : Result E A
  panic : Result E A

abbrev pub ◌>>=◌ {ℓ κ μ} :
    {E : Type ℓ} {A : Type κ} {B : Type μ} → Result E A → (A → Result E B) → Result E B
panic >>= rest = panic
constraint >>= rest = constraint
err code >>= rest = err code
ok x >>= rest = rest x

abbrev pub ◌>>◌ {ℓ κ} : {E : Type ℓ} {B : Type κ} → Result E (Unit {0}) → Result E B → Result E B
first >> rest = first >>= λ _. rest

infixl 5 ◌>>=◌ ◌>>◌
-- `require!(cond, error)`
abbrev pub require {ℓ} : {E : Type ℓ} → Bool → E → Result E (Unit {0})
require true e = ok tt
require false e = err e

-- an account constraint that Anchor checks before the handler runs
abbrev pub expect {ℓ} : {E : Type ℓ} → Bool → Result E (Unit {0})
expect true = ok tt
expect false = constraint

-- `Option::ok_or`
abbrev pub ok_or {ℓ κ} : {E : Type ℓ} {A : Type κ} → Option A → E → Result E A
ok_or none e = err e
ok_or (some a) e = ok a

-- the call returned `Ok`
abbrev pub Succeeds {ℓ κ} : {E : Type ℓ} {A : Type κ} → Result E A → Type (ℓ ⊔ κ)
Succeeds {A} r = (a : A) × (r ≡ ok a)

-- A sequence returned `Ok`, so its first action did, and the rest did on that action's value. Proofs
-- take a handler apart with it, one action at a time.
pub >>=-ok {ℓ κ μ} :
    {E : Type ℓ} {A : Type κ} {B : Type μ} {y : B} (r : Result E A) (rest : A → Result E B)
    → (r >>= rest) ≡ ok y
    → (x : A) × (r ≡ ok x) × (rest x ≡ ok y)
>>=-ok panic rest done = cc
>>=-ok constraint rest done = cc
>>=-ok (err code) rest done = cc
>>=-ok (ok x) rest done = (x, refl, done)

-- A handler has one result.
pub ok-inj {ℓ κ} :
    {E : Type ℓ} {A : Type κ} {a b : A} (r : Result E A) → r ≡ ok a → r ≡ ok b → a ≡ b
ok-inj r h k = cc

pub require_inv {ℓ} : {E : Type ℓ} (c : Bool) (e : E) {u : Unit {0}} → require c e ≡ ok u → c ≡ true
require_inv true e h = refl
require_inv false e h = cc

pub expect_inv {ℓ} : {E : Type ℓ} (c : Bool) {u : Unit {0}} → expect {E = E} c ≡ ok u → c ≡ true
expect_inv true h = refl
expect_inv false h = cc

pub ok_or-ok {ℓ κ} :
    {E : Type ℓ} {A : Type κ} {a : A} (o : Option A) (e : E) → ok_or o e ≡ ok a → o ≡ some a
ok_or-ok none e h = cc
ok_or-ok (some a) e h = cc
