-- ===== src/Argus/Execute/Gift.antt =====
-- The transfers of the hook by kind: calls that are no transfer, the issuer's and the treasury's
-- flows, and gifts (`handle_execute` of programs/argus/src/instructions/execute.rs).
use mathlib.Core.Path.{subst}
use vesta_core.Base.{
  ℕ, ◌≡◌, refl, ◌⊎◌, inl, inr, true, false, Option, none, some, ℤ, arith, unix_day, ◌==◌, ok, err,
  Bool-cases,
}
use vesta_core.Argus.Flag
use vesta_core.Argus.Reason
use vesta_core.Argus.Error.{GuardError}
use vesta_core.Argus.State.{Pubkey, WalletPolicyState, has_flag}
use vesta_core.Argus.Execute.{
  Programs, Execute, Unpacked, Step, go, allow, reject, fault, ◌>>=◌, token_account_owner,
  flow_rules, destination_rules, list_rules, eligibility_rule, amount_rules, wallet_rules, roll_day,
  rules, allow_if, require, ok_or, is_delegate, assert_transferring, entry, run_from, conclude,
  handle_execute,
}
use vesta_core.Argus.Execute.Inversion.{
  >>=-go, IsPeer, IsReachable, IsListed, IsEligible, IsWithinCaps, require_inv, ok_or_inv,
  flow_rules_inv, destination_rules_inv, list_rules_inv, eligibility_rule_inv, amount_rules_inv,
}
use vesta_core.Argus.Execute.Pace.{IsPaced, velocity_rules_inv}

-- The source is a Token-2022 account of this mint that is in the middle of a transfer.
pub record IsGenuine (env : Programs) (x : Execute) : Type 0 where
  pub program : x.source.owner ≡ env.token_2022
  pub account : Unpacked
  pub unpacked : x.source.unpacked ≡ some account
  pub mint : account.mint ≡ x.mint.key
  pub transferring : account.transferring ≡ some true

IsGenuine-inv :
    (env : Programs) (x : Execute) {u : Unit {0}}
    → assert_transferring env x.source x.mint.key ≡ go u
    → IsGenuine env x
unfolding assert_transferring
IsGenuine-inv env x h =
    let (_, e0, h0) = >>=-go _ _ h in
    let (account, e1, h1) = >>=-go _ _ h0 in
    let (_, e2, h2) = >>=-go _ _ h1 in
    let (flag, e3, e4) = >>=-go _ _ h2 in
    let program = require_inv _ _ e0 in
    let mint = require_inv _ _ e2 in
    let set = require_inv _ _ e4 in
    let read = ok_or_inv _ _ e3 in
    record {
      program = ground arith;
      account = account;
      unpacked = ok_or_inv _ _ e1;
      mint = ground arith;
      transferring = subst (λ b. account.transferring ≡ some b) set read;
    }

genuine_lem :
    (env : Programs) (x : Execute)
    → IsGenuine env x
    → assert_transferring env x.source x.mint.key ≡ go tt
unfolding assert_transferring ◌>>=◌ require ok_or
genuine_lem env x g = ground arith

-- What the policy asks of a gift, and what the gift leaves in the counters of the source's owner.
pub record IsGift (env : Programs) (x : Execute) (now : ℤ) (amount : ℕ) (s' : WalletPolicyState)
    : Type 0 where
  pub genuine : IsGenuine env x
  pub source_owner : Pubkey
  pub sent_by : token_account_owner x.source ≡ go source_owner
  pub peer : IsPeer x amount
  pub owner : Pubkey
  pub reachable : IsReachable env x owner
  pub listed : IsListed env x owner
  pub eligible :
      has_flag x.guard_config.flags Flag.require_attestation ≡ true → IsEligible env x now owner
  pub within : IsWithinCaps x amount
  pub address : x.wallet_state.key ≡ env.wallet_state_address x.mint.key source_owner
  pub owned : x.wallet_state.owner ≡ env.argus
  pub stored : WalletPolicyState
  pub content : x.wallet_state.content ≡ some stored
  pub today : ℕ
  pub dated : unix_day now ≡ some today
  pub paced : IsPaced x.guard_config (roll_day stored today) now amount s'

conclude_inv :
    (x : Execute) (owner : Pubkey) (amount : ℕ) (s : Step WalletPolicyState)
    {s' : WalletPolicyState}
    → (conclude x owner amount s).result ≡ ok (some s')
    → s ≡ go s'
unfolding conclude
conclude_inv x owner amount (go s) h = ground arith
conclude_inv x owner amount (allow r) h = ground arith
conclude_inv x owner amount (reject r e) h = cc
conclude_inv x owner amount (fault e) h = cc

run_from_inv :
    (env : Programs) (x : Execute) (now : ℤ) (amount : ℕ) (s : Step Pubkey) {s' : WalletPolicyState}
    → (run_from env x now amount s).result ≡ ok (some s')
    → (owner : Pubkey) × (s ≡ go owner) × (rules env x now amount owner ≡ go s')
run_from_inv env x now amount (go owner) h = (owner, refl, conclude_inv x owner amount _ h)
run_from_inv env x now amount (allow _) h = cc
run_from_inv env x now amount (reject _ _) h = cc
run_from_inv env x now amount (fault _) h = cc

-- A transfer that writes the velocity counters obeys the whole policy of the mint: it is a real
-- transfer between peers, no freeze is on, the lists, the eligibility cache, the caps on the amount
-- and on the balance allow it, and the counters that it writes stay within the daily limits.
pub transfer_respects_policy :
    (env : Programs) (x : Execute) (now : ℤ) (amount : ℕ) (s' : WalletPolicyState)
    → (handle_execute env x now amount).result ≡ ok (some s')
    → IsGift env x now amount s'
unfolding handle_execute rules wallet_rules
transfer_respects_policy env x now amount s' h =
    let (from, e, ran) = run_from_inv env x now amount (entry env x) h in
    let (_, g, sent_by) = >>=-go (assert_transferring env x.source x.mint.key) _ e in
    let (_, e1, h1) = >>=-go (flow_rules x amount) _ ran in
    let (to, e2, h2) = >>=-go (destination_rules env x) _ h1 in
    let (_, e3, h3) = >>=-go (list_rules env x to) _ h2 in
    let (_, e4, h4) = >>=-go (eligibility_rule env x now to) _ h3 in
    let (_, e5, h5) = >>=-go (amount_rules x amount) _ h4 in
    let (_, e6, h6) = >>=-go _ _ h5 in
    let (_, e7, h7) = >>=-go _ _ h6 in
    let (stored, e8, h8) = >>=-go _ _ h7 in
    let (today, e9, paced) = >>=-go _ _ h8 in
    let addressed = require_inv _ _ e6 in
    let owned = require_inv _ _ e7 in
    record {
      genuine = IsGenuine-inv env x g;
      source_owner = from;
      sent_by = sent_by;
      peer = flow_rules_inv x amount e1;
      owner = to;
      reachable = destination_rules_inv env x e2;
      listed = list_rules_inv env x to e3;
      eligible = eligibility_rule_inv env x now to e4;
      within = amount_rules_inv x amount e5;
      address = ground arith;
      owned = ground arith;
      stored = stored;
      content = ok_or_inv _ _ e8;
      today = today;
      dated = ok_or_inv _ _ e9;
      paced = velocity_rules_inv _ _ now amount paced;
    }

-- A call that Token-2022 does not make in the middle of a transfer of this mint, on a source account of
-- the mint with its flag set, has no effect: it returns an error, so nothing is written, and it emits no
-- decision.
pub forged_call_fails :
    (env : Programs) (x : Execute) (now : ℤ) (amount : ℕ)
    → (IsGenuine env x → ⊥)
    → (e : GuardError) × (handle_execute env x now amount
        ≡ record { decision = none; result = err e })
unfolding handle_execute
forged_call_fails env x now amount forged = refused (entry env x) refl
  where
    refused :
        (s : Step Pubkey)
        → entry env x ≡ s
        → (e : GuardError) × (run_from env x now amount s
            ≡ record { decision = none; result = err e })
    refused (go owner) h =
        absurd (
          forged (IsGenuine-inv env x (>>=-go (assert_transferring env x.source x.mint.key) _ h).1))
    refused (allow _) h = (_, refl)
    refused (reject _ e) h = (_, refl)
    refused (fault e) h = (_, refl)

-- The two flows that a policy cannot stop: the mint's permanent delegate moves the funds, or they
-- go to the treasury.
abbrev pub IsProtected : Execute → Option Pubkey → Type 0
IsProtected x delegate =
    (is_delegate delegate x.authority ≡ true) ⊎ (x.destination.key ≡ x.guard_config.treasury)

treasury_of :
    (x : Execute) (delegate : Option Pubkey)
    → is_delegate delegate x.authority ≡ false
    → IsProtected x delegate
    → (x.destination.key == x.guard_config.treasury) ≡ true
treasury_of x delegate other h = ground arith

flow_passes :
    (x : Execute) (amount : ℕ) (delegate : Option Pubkey)
    → x.mint.delegate ≡ some delegate
    → IsProtected x delegate
    → (flow_rules x amount ≡ allow Reason.issuer_flow)
      ⊎ (flow_rules x amount ≡ allow Reason.treasury_flow)
unfolding flow_rules ◌>>=◌ ok_or allow_if
flow_passes x amount delegate e h = elim (Bool-cases (is_delegate delegate x.authority)) [
  | inl issuer ↦ inl (rw (e, issuer))
  | inr other ↦ inr (rw (e, other, treasury_of x delegate other h))
]

-- Redemption and clawback are never stranded: a real transfer by the permanent delegate, or to the
-- treasury, succeeds and leaves the counters alone, whatever the pause, the degrade posture, the
-- flags, the caps, the lists and the eligibility cache say, and whatever the amount and the clock.
pub redemption_never_stranded :
    (env : Programs) (x : Execute) (now : ℤ) (amount : ℕ) (from : Pubkey) (delegate : Option Pubkey)
    → IsGenuine env x
    → token_account_owner x.source ≡ go from
    → x.mint.delegate ≡ some delegate
    → IsProtected x delegate
    → (handle_execute env x now amount).result ≡ ok none
unfolding handle_execute rules conclude ◌>>=◌
redemption_never_stranded env x now amount from delegate g sent e h =
    elim (flow_passes x amount delegate e h) [
      | inl issuer ↦ rw (genuine_lem env x g) (rw sent (rw issuer))
      | inr treasury ↦ rw (genuine_lem env x g) (rw sent (rw treasury))
    ]
