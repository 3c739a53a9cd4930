-- ===== src/Argus/Execute.antt =====
-- The transfer hook (programs/argus/src/instructions/execute.rs). The rules run in order; each
-- lets the transfer go on, allows or rejects it with a reason, or raises an error with no decision.
pub mod Decision
pub mod Inversion
pub mod Pace
pub mod Gift
pub mod Velocity
pub mod Tests
use vesta_core.Base.{
  Slot, ℕ, zero, suc, ◌+◌, ◌-◌, ◌*◌, Bool, true, false, ◌&&◌, ◌||◌, not, Option, none, some, List,
  [], ◌∷◌, ℤ, pos, ltb, leb, ltb_ℤ, leb_ℤ, eqb_ℤ, ◌==◌, if◌then◌else◌, Result, ok, err, unix_day,
  checked_add, checked_sub_i64, saturating_add, u16_max, u64_max, bit_and, length, take,
}
use vesta_core.Argus.Error.{
  GuardError, mint_mismatch, state_not_opened, mint_paused, gifting_disabled, per_tx_exceeded,
  balance_cap_exceeded, cooldown_active, transfer_count_exceeded, gift_cap_exceeded,
  not_allowlisted, deny_listed, program_owned_destination, meta_list_mismatch, not_transferring,
  eligibility_stale, overflow, trust_degraded,
}
use vesta_core.Argus.Flag
use vesta_core.Argus.Reason
use vesta_core.Argus.State.{
  Pubkey, Hash, GuardConfig, WalletPolicyState, EligibilityCapability, has_flag, state_version,
  predicate_attestation_bit, degrade_normal,
}

-- The addresses of other programs, and the derivation of a program's own addresses.
pub record Programs : Type 0 where
  pub token_2022 : Pubkey
  pub argus : Pubkey
  pub system : Pubkey
  -- `find_program_address` of the seeds `wallet`, a mint and an owner, and so on
  pub wallet_state_address : Pubkey → Pubkey → Pubkey
  pub list_entry_address : Pubkey → Pubkey → Pubkey
  pub capability_address : Pubkey → Pubkey → Pubkey

-- What Token-2022's `unpack` reads from a token account: its mint, and the `transferring` flag of
-- the hook extension, if it has one.
pub record Unpacked : Type 0 where
  pub mint : Pubkey
  pub transferring : Option Bool

pub record TokenAccount : Type 0 where
  pub key : Pubkey
  pub owner : Pubkey
  pub data_bytes : List ℕ
  pub unpacked : Option Unpacked

-- The mint: `delegate` is `none` if it does not unpack, else its permanent delegate, if any.
pub record MintAccount : Type 0 where
  pub key : Pubkey
  pub delegate : Option (Option Pubkey)

pub record Execute : Type 0 where
  pub source : TokenAccount
  pub mint : MintAccount
  pub destination : TokenAccount
  pub authority : Pubkey
  pub guard_config : GuardConfig
  pub wallet_state : Slot WalletPolicyState
  pub destination_owner : Pubkey
  pub destination_owner_program : Pubkey
  pub list_entry : Slot (Unit {0})
  pub capability : Slot EligibilityCapability

-- The course of the rules.
pub data Step (A : Type 0) : Type 0 where
  go : A → Step A
  allow : ℕ → Step A
  reject : ℕ → GuardError → Step A
  fault : GuardError → Step A

infixl 5 ◌>>=◌ ◌>>◌
pub ◌>>=◌ : {A B : Type 0} → Step A → (A → Step B) → Step B
go a >>= f = f a
allow r >>= f = allow r
reject r e >>= f = reject r e
fault e >>= f = fault e

abbrev pub ◌>>◌ : {B : Type 0} → Step (Unit {0}) → Step B → Step B
m >> k = m >>= λ _. k

pub allow_if : Bool → ℕ → Step (Unit {0})
allow_if c reason = if c then allow reason else go tt

pub reject_if : Bool → ℕ → GuardError → Step (Unit {0})
reject_if c reason e = if c then reject reason e else go tt

pub require : Bool → GuardError → Step (Unit {0})
require c e = if c then go tt else fault e

pub ok_or : {A : Type 0} → Option A → GuardError → Step A
ok_or none e = fault e
ok_or (some a) e = go a

-- `data.get(from..from + n)`
abbrev get_range : ℕ → ℕ → List ℕ → Option (List ℕ)
get_range zero n bytes = if leb n (length bytes) then some (take n bytes) else none
get_range (suc skip) n [] = none
get_range (suc skip) n (b ∷ bytes) = get_range skip n bytes

-- The number of a little-endian byte string.
abbrev le_number : List ℕ → ℕ
le_number [] = 0
le_number (b ∷ bytes) = b + 256 * le_number bytes

abbrev le_value : Option (List ℕ) → Option ℕ
le_value none = none
le_value (some bytes) = some (le_number bytes)

pub token_account_owner : TokenAccount → Step Pubkey
token_account_owner a = ok_or (le_value (get_range 32 32 a.data_bytes)) meta_list_mismatch

pub token_account_amount : TokenAccount → Step ℕ
token_account_amount a = ok_or (le_value (get_range 64 8 a.data_bytes)) meta_list_mismatch

-- `source` is a Token-2022 account of this mint, in the middle of a transfer.
pub assert_transferring : Programs → TokenAccount → Pubkey → Step (Unit {0})
assert_transferring env source mint_key = do
  require (source.owner == env.token_2022) not_transferring
  account ← ok_or source.unpacked not_transferring
  require (account.mint == mint_key) mint_mismatch
  transferring ← ok_or account.transferring not_transferring
  require transferring not_transferring

abbrev is_delegate : Option Pubkey → Pubkey → Bool
is_delegate none authority = false
is_delegate (some delegate) authority = delegate == authority

-- Rules 1 to 4: the issuer's and the treasury's flows, the freezes, and the empty transfer.
pub flow_rules : Execute → ℕ → Step (Unit {0})
flow_rules x amount = do
  delegate ← ok_or x.mint.delegate mint_mismatch
  allow_if (is_delegate delegate x.authority) Reason.issuer_flow
  allow_if (x.destination.key == x.guard_config.treasury) Reason.treasury_flow
  reject_if x.guard_config.paused Reason.mint_paused mint_paused
  reject_if (not (x.guard_config.degrade_mode == degrade_normal)) Reason.trust_degraded
      trust_degraded
  allow_if (amount == 0) Reason.noop
  reject_if (has_flag x.guard_config.flags Flag.gifting_disabled) Reason.gifting_disabled
      gifting_disabled

-- Rule 5, with the binding of the owner before it.
pub destination_rules : Programs → Execute → Step Pubkey
unfolding token_account_owner
destination_rules env x = do
  owner ← token_account_owner x.destination
  require (owner == x.destination_owner) meta_list_mismatch
  reject_if
      (has_flag x.guard_config.flags Flag.block_program_owned
        && not (x.destination_owner_program == env.system))
      Reason.program_owned_dest program_owned_destination
  go owner

-- A list entry that exists is membership.
abbrev is_listed : Programs → Slot (Unit {0}) → Bool
is_listed env entry = entry.owner == env.argus && not entry.is_empty

-- Rules 6 and 7.
pub list_rules : Programs → Execute → Pubkey → Step (Unit {0})
list_rules env x owner =
    if has_flag x.guard_config.flags Flag.any_list
    then (do
      require (x.list_entry.key == env.list_entry_address x.mint.key owner) meta_list_mismatch
      reject_if
          (has_flag x.guard_config.flags Flag.allowlist_only && not (is_listed env x.list_entry))
          Reason.not_allowlisted not_allowlisted
      reject_if (has_flag x.guard_config.flags Flag.denylist && is_listed env x.list_entry)
          Reason.deny_listed deny_listed)
    else go tt

-- The capability is of this layout, mint, subject, deployment and of both current epochs.
abbrev pub is_bound : Execute → Pubkey → EligibilityCapability → Bool
is_bound x owner cap =
    cap.version == state_version
    && cap.mint == x.mint.key
    && cap.subject == owner
    && cap.aegis_program == x.guard_config.aegis_program
    && cap.policy_epoch == x.guard_config.policy_epoch
    && cap.screening_epoch == x.guard_config.screening_epoch

abbrev pub grants : Execute → ℤ → Pubkey → EligibilityCapability → Bool
grants x now owner cap =
    if not (is_bound x owner cap)
    then false
    else if leb_ℤ cap.expires_at now
    then false
    else not (bit_and cap.verdicts predicate_attestation_bit == 0)

pub capability_ok : Programs → Execute → ℤ → Pubkey → Step Bool
capability_ok env x now owner = do
  require (x.capability.key == env.capability_address x.mint.key owner) meta_list_mismatch
  if not (x.capability.owner == env.argus) || x.capability.is_empty
      then go false
      else (do cap ← ok_or x.capability.content eligibility_stale; go (grants x now owner cap))

-- Rule 8.
pub eligibility_rule : Programs → Execute → ℤ → Pubkey → Step (Unit {0})
unfolding capability_ok
eligibility_rule env x now owner =
    if has_flag x.guard_config.flags Flag.require_attestation
    then (do
      eligible ← capability_ok env x now owner
      reject_if (not eligible) Reason.eligibility_stale eligibility_stale)
    else go tt

-- Rules 9 and 10. The destination's balance already holds the amount.
pub amount_rules : Execute → ℕ → Step (Unit {0})
unfolding token_account_amount
amount_rules x amount = do
  reject_if (not (x.guard_config.per_tx_cap == 0) && ltb x.guard_config.per_tx_cap amount)
      Reason.per_tx_exceeded per_tx_exceeded
  if x.guard_config.max_wallet_balance == 0 then go tt else (do
    balance ← token_account_amount x.destination
    reject_if (ltb x.guard_config.max_wallet_balance balance) Reason.balance_cap
        balance_cap_exceeded)

-- The counters, rolled over to `today`.
pub roll_day : WalletPolicyState → ℕ → WalletPolicyState
roll_day s today =
    if s.day == today then s else record s { day = today; sent_today = 0; transfers_today = 0 }

-- The time since the last transfer; 0 where it does not fit.
abbrev elapsed_since : ℤ → ℤ → ℤ
elapsed_since now last = elim (checked_sub_i64 now last) [ some elapsed ↦ elapsed | none ↦ pos 0 ]

-- Rules 11 to 13 over the rolled counters, and the state that a gift commits.
pub velocity_rules : GuardConfig → WalletPolicyState → ℤ → ℕ → Step WalletPolicyState
velocity_rules config s now amount = do
  reject_if
      (ltb 0 config.cooldown_secs
        && not (eqb_ℤ s.last_transfer_at (pos 0))
        && ltb_ℤ (elapsed_since now s.last_transfer_at) (pos config.cooldown_secs))
      Reason.cooldown cooldown_active
  reject_if
      (not (config.transfers_per_day_cap == 0)
        && leb config.transfers_per_day_cap s.transfers_today)
      Reason.transfer_count transfer_count_exceeded
  new_sent ← ok_or (checked_add u64_max s.sent_today amount) overflow
  reject_if (ltb config.daily_gift_cap new_sent) Reason.daily_cap gift_cap_exceeded
  go (record s {
    sent_today = new_sent;
    transfers_today = saturating_add u16_max s.transfers_today 1;
    last_transfer_at = now;
  })

-- The source owner's counters, from their own account.
pub wallet_rules : Programs → Execute → ℤ → ℕ → Pubkey → Step WalletPolicyState
unfolding roll_day velocity_rules
wallet_rules env x now amount source_owner = do
  require (x.wallet_state.key == env.wallet_state_address x.mint.key source_owner)
      meta_list_mismatch
  require (x.wallet_state.owner == env.argus) state_not_opened
  stored ← ok_or x.wallet_state.content state_not_opened
  today ← ok_or (unix_day now) overflow
  velocity_rules x.guard_config (roll_day stored today) now amount

pub rules : Programs → Execute → ℤ → ℕ → Pubkey → Step WalletPolicyState
unfolding flow_rules destination_rules list_rules eligibility_rule amount_rules wallet_rules
rules env x now amount source_owner = do
  flow_rules x amount
  owner ← destination_rules env x
  list_rules env x owner
  eligibility_rule env x now owner
  amount_rules x amount
  wallet_rules env x now amount source_owner

-- The event of a decision.
pub record TransferDecision : Type 0 where
  pub mint : Pubkey
  pub source_owner : Pubkey
  pub destination_owner : Pubkey
  pub amount : ℕ
  pub allowed : Bool
  pub reason : ℕ
  pub policy_epoch : ℕ
  pub active_policy_hash : Hash

-- What a call emits, and its result: the counters that it wrote, if it wrote any.
pub record Outcome : Type 0 where
  pub decision : Option TransferDecision
  pub result : Result GuardError (Option WalletPolicyState)

pub decide : Execute → Pubkey → ℕ → Bool → ℕ → TransferDecision
decide x source_owner amount allowed reason = record {
  mint = x.mint.key;
  source_owner = source_owner;
  destination_owner = x.destination_owner;
  amount = amount;
  allowed = allowed;
  reason = reason;
  policy_epoch = x.guard_config.policy_epoch;
  active_policy_hash = x.guard_config.active_policy_hash;
}

-- A gift is the only course that writes the counters.
pub conclude : Execute → Pubkey → ℕ → Step WalletPolicyState → Outcome
unfolding decide
conclude x source_owner amount (go s) = record {
  decision = some (decide x source_owner amount true Reason.gift);
  result = ok (some s);
}
conclude x source_owner amount (allow reason) = record {
  decision = some (decide x source_owner amount true reason);
  result = ok none;
}
conclude x source_owner amount (reject reason e) = record {
  decision = some (decide x source_owner amount false reason);
  result = err e;
}
conclude x source_owner amount (fault e) = record { decision = none; result = err e }

abbrev refuse : GuardError → Outcome
refuse e = record { decision = none; result = err e }

-- The steps before the rules never decide.
abbrev entry : Programs → Execute → Step Pubkey
entry env x = do assert_transferring env x.source x.mint.key; token_account_owner x.source

abbrev run_from : Programs → Execute → ℤ → ℕ → Step Pubkey → Outcome
run_from env x now amount (go source_owner) =
    conclude x source_owner amount (rules env x now amount source_owner)
run_from env x now amount (allow _) = refuse not_transferring
run_from env x now amount (reject _ e) = refuse e
run_from env x now amount (fault e) = refuse e

pub handle_execute : Programs → Execute → ℤ → ℕ → Outcome
unfolding assert_transferring token_account_owner conclude rules
handle_execute env x now amount = run_from env x now amount (entry env x)
