-- ===== src/Argus/Execute/Inversion.antt =====
-- What each group of rules has established where it lets a transfer go on.
use mathlib.Core.Path.{subst}
use vesta_core.Base.{
  ℕ, ◌≤◌, ◌<◌, ◌≡◌, ◌≢◌, refl, ◌⊎◌, inl, inr, Bool, true, false, ◌||◌, not, Option, none, some, ℤ,
  ◌<ℤ◌, arith, ◌==◌, if◌then◌else◌, bit_and, Bool-cases, leb_ℤ,
}
use vesta_core.Argus.Error.{GuardError}
use vesta_core.Argus.Flag
use vesta_core.Argus.State.{Pubkey, EligibilityCapability, has_flag}
use vesta_core.Argus.Execute.{
  Programs, Execute, Step, go, allow, reject, fault, ◌>>=◌, token_account_owner,
  token_account_amount, flow_rules, destination_rules, list_rules, capability_ok, eligibility_rule,
  amount_rules, allow_if, reject_if, require, ok_or, is_delegate, is_listed, is_bound, grants,
}

-- Where a sequence goes on to its end, each of its steps went on.
pub >>=-go :
    {A B : Type 0} {y : B} (step : Step A) (rest : A → Step B)
    → (step >>= rest) ≡ go y
    → (x : A) × (step ≡ go x) × (rest x ≡ go y)
unfolding ◌>>=◌
>>=-go (fault code) rest done = cc
>>=-go (reject reason code) rest done = cc
>>=-go (allow reason) rest done = cc
>>=-go (go x) rest done = (x, refl, done)

-- A transfer between peers that no freeze stops.
pub record IsPeer (x : Execute) (amount : ℕ) : Type 0 where
  pub not_treasury : x.destination.key ≢ x.guard_config.treasury
  pub running : x.guard_config.paused ≡ false
  pub normal : x.guard_config.degrade_mode ≡ 0
  pub positive : 0 < amount
  pub gifting : has_flag x.guard_config.flags Flag.gifting_disabled ≡ false
  pub delegate : Option Pubkey
  pub unpacked : x.mint.delegate ≡ some delegate
  pub not_delegate : is_delegate delegate x.authority ≡ false

pub reject_if_inv :
    (c : Bool) (r : ℕ) (e : GuardError) {u : Unit {0}} → reject_if c r e ≡ go u → c ≡ false
unfolding reject_if
reject_if_inv true r e h = cc
reject_if_inv false r e h = refl

allow_if_inv : (c : Bool) (r : ℕ) {u : Unit {0}} → allow_if c r ≡ go u → c ≡ false
unfolding allow_if
allow_if_inv true r h = cc
allow_if_inv false r h = refl

pub require_inv : (c : Bool) (e : GuardError) {u : Unit {0}} → require c e ≡ go u → c ≡ true
unfolding require
require_inv true e h = refl
require_inv false e h = cc

pub ok_or_inv : {A : Type 0} (o : Option A) (e : GuardError) {a : A} → ok_or o e ≡ go a → o ≡ some a
unfolding ok_or
ok_or_inv none e h = cc
ok_or_inv (some b) e h = ground arith

pub flow_rules_inv : (x : Execute) (amount : ℕ) → flow_rules x amount ≡ go tt → IsPeer x amount
unfolding flow_rules
flow_rules_inv x amount h =
    let (d, e0, h0) = >>=-go _ _ h in
    let (_, e1, h1) = >>=-go _ _ h0 in
    let (_, e2, h2) = >>=-go _ _ h1 in
    let (_, e3, h3) = >>=-go _ _ h2 in
    let (_, e4, h4) = >>=-go _ _ h3 in
    let (_, e5, e6) = >>=-go _ _ h4 in
    let treasury = allow_if_inv _ _ e2 in
    let degrade = reject_if_inv _ _ _ e4 in
    let empty = allow_if_inv _ _ e5 in
    record {
      not_treasury = ground arith;
      running = reject_if_inv _ _ _ e3;
      normal = ground arith;
      positive = ground arith;
      gifting = reject_if_inv _ _ _ e6;
      delegate = d;
      unpacked = ok_or_inv _ _ e0;
      not_delegate = allow_if_inv _ _ e1;
    }

-- The destination's owner, and that no program owns that wallet where the policy forbids it.
pub record IsReachable (env : Programs) (x : Execute) (owner : Pubkey) : Type 0 where
  pub read : token_account_owner x.destination ≡ go owner
  pub named : owner ≡ x.destination_owner
  pub unowned :
      has_flag x.guard_config.flags Flag.block_program_owned ≡ true
      → x.destination_owner_program ≡ env.system

pub destination_rules_inv :
    (env : Programs) (x : Execute) {owner : Pubkey}
    → destination_rules env x ≡ go owner
    → IsReachable env x owner
unfolding destination_rules
destination_rules_inv env x {owner} h =
    let (to, e0, h0) = >>=-go (token_account_owner x.destination) _ h in
    let (_, e1, h1) = >>=-go _ _ h0 in
    let (_, e2, h2) = >>=-go _ _ h1 in
    let same : to ≡ owner = ground arith in
    let named = require_inv _ _ e1 in
    let allowed = reject_if_inv _ _ _ e2 in
    record {
      read = subst (λ o. token_account_owner x.destination ≡ go o) same e0;
      named = ground arith;
      unowned = λ flag. ground arith;
    }

-- The lists, as far as the policy asks for them.
pub record IsListed (env : Programs) (x : Execute) (owner : Pubkey) : Type 0 where
  pub allowlisted :
      has_flag x.guard_config.flags Flag.any_list ≡ true
      → has_flag x.guard_config.flags Flag.allowlist_only ≡ true
      → is_listed env x.list_entry ≡ true
  pub not_denied :
      has_flag x.guard_config.flags Flag.any_list ≡ true
      → has_flag x.guard_config.flags Flag.denylist ≡ true
      → is_listed env x.list_entry ≡ false
  pub entry_bound :
      has_flag x.guard_config.flags Flag.any_list ≡ true
      → x.list_entry.key ≡ env.list_entry_address x.mint.key owner

pub list_rules_inv :
    (env : Programs) (x : Execute) (owner : Pubkey)
    → list_rules env x owner ≡ go tt
    → IsListed env x owner
unfolding list_rules
list_rules_inv env x owner h = elim (Bool-cases (has_flag x.guard_config.flags Flag.any_list)) [
  | inl on ↦
      (let (_, e0, h0) =
          >>=-go (require (x.list_entry.key == env.list_entry_address x.mint.key owner) _) _
            (rw on at h) in
        let (_, e1, e2) = >>=-go _ _ h0 in
        let bound = require_inv _ _ e0 in
        let allowed = reject_if_inv _ _ _ e1 in
        let denied = reject_if_inv _ _ _ e2 in
        record {
          allowlisted = λ _ flag. ground arith;
          not_denied = λ _ flag. ground arith;
          entry_bound = λ _. ground arith;
        })
  | inr off ↦ record { allowlisted = λ on. cc; not_denied = λ on. cc; entry_bound = λ on. cc }
]

-- A capability that vouches for the owner now.
pub record IsEligible (env : Programs) (x : Execute) (now : ℤ) (owner : Pubkey) : Type 0 where
  pub address : x.capability.key ≡ env.capability_address x.mint.key owner
  pub owned : x.capability.owner ≡ env.argus
  pub cap : EligibilityCapability
  pub stored : x.capability.content ≡ some cap
  pub bound : is_bound x owner cap ≡ true
  pub unexpired : now <ℤ cap.expires_at
  pub attested : bit_and cap.verdicts 1 ≢ 0

if_inv :
    (c : Bool) (k : Step Bool) → (if c then go false else k) ≡ go true → (c ≡ false) × (k ≡ go true)
if_inv true k h = cc
if_inv false k h = (refl, h)

pub go_injective : {A : Type 0} {a b : A} → go a ≡ go b → a ≡ b
go_injective h = cc

unexpired_of : (expiry now : ℤ) → leb_ℤ expiry now ≡ false → now <ℤ expiry
unexpired_of expiry now h = ground arith

eqb_of : (n : ℕ) → n ≡ 0 → (n == 0) ≡ true
eqb_of n h = ground arith

ladder_inv :
    (bound expired unset : Bool)
    → (if not bound then false else if expired then false else not unset) ≡ true
    → (bound ≡ true) × (expired ≡ false) × (unset ≡ false)
ladder_inv bound expired unset h = ground arith

grants_inv :
    (x : Execute) (now : ℤ) (owner : Pubkey) (cap : EligibilityCapability)
    → grants x now owner cap ≡ true
    → (is_bound x owner cap ≡ true) × (now <ℤ cap.expires_at) × (bit_and cap.verdicts 1 ≢ 0)
grants_inv x now owner cap h =
    let (bound, current, set) =
      ladder_inv (is_bound x owner cap) (leb_ℤ cap.expires_at now) (bit_and cap.verdicts 1 == 0)
        h in
    (
      bound,
      unexpired_of cap.expires_at now current,
      λ z. cc (eqb_of (bit_and cap.verdicts 1) z, set),
    )

capability_ok_inv :
    (env : Programs) (x : Execute) (now : ℤ) (owner : Pubkey)
    → capability_ok env x now owner ≡ go true
    → IsEligible env x now owner
unfolding capability_ok
capability_ok_inv env x now owner h =
    let (_, e0, h0) = >>=-go _ _ h in
    let (here, h1) = if_inv (not (x.capability.owner == env.argus) || x.capability.is_empty) _ h0 in
    let (cap, e1, h2) = >>=-go _ _ h1 in
    let granted : grants x now owner cap ≡ true = go_injective h2 in
    let facts = grants_inv x now owner cap granted in
    let addressed = require_inv _ _ e0 in
    record {
      address = ground arith;
      owned = ground arith;
      cap = cap;
      stored = ok_or_inv _ _ e1;
      bound = facts.0;
      unexpired = facts.1;
      attested = facts.2;
    }

pub eligibility_rule_inv :
    (env : Programs) (x : Execute) (now : ℤ) (owner : Pubkey)
    → eligibility_rule env x now owner ≡ go tt
    → has_flag x.guard_config.flags Flag.require_attestation ≡ true
    → IsEligible env x now owner
unfolding eligibility_rule
eligibility_rule_inv env x now owner h on =
    let (eligible, e0, h0) = >>=-go (capability_ok env x now owner) _ (rw on at h) in
    let yes_it_is = reject_if_inv _ _ _ h0 in
    let same : eligible ≡ true = ground arith in
    capability_ok_inv env x now owner (subst (λ b. capability_ok env x now owner ≡ go b) same e0)

-- The caps on the amount and on what the destination then holds.
pub record IsWithinCaps (x : Execute) (amount : ℕ) : Type 0 where
  pub per_tx : (x.guard_config.per_tx_cap ≡ 0) ⊎ (amount ≤ x.guard_config.per_tx_cap)
  pub balance :
      (x.guard_config.max_wallet_balance ≡ 0)
      ⊎ ((b : ℕ) × (token_account_amount x.destination ≡ go b)
          × (b ≤ x.guard_config.max_wallet_balance))

pub amount_rules_inv :
    (x : Execute) (amount : ℕ) → amount_rules x amount ≡ go tt → IsWithinCaps x amount
unfolding amount_rules
amount_rules_inv x amount h =
    let (_, e0, h0) = >>=-go _ _ h in
    let small = reject_if_inv _ _ _ e0 in
    record {
      per_tx = ground arith;
      balance = elim (Bool-cases (x.guard_config.max_wallet_balance == 0)) [
        | inl off ↦ inl (ground arith)
        | inr on ↦
            (let (b, e1, h1) = >>=-go (token_account_amount x.destination) _ (rw on at h0) in
              let low = reject_if_inv _ _ _ h1 in inr (b, e1, ground arith))
      ];
    }
