-- ===== src/Argus/Execute/Tests.antt =====
-- Runs of the transfer hook on concrete accounts.
use vesta_core.Base.{
  err, ℕ, suc, zero, ◌+◌, ◌≡◌, refl, inr, true, false, none, some, List, [], ◌∷◌, ◌++◌, ℤ, pos,
  ◌-ℤ◌, arith, ok, unix_day,
}
use vesta_core.Argus.State.{GuardConfig, WalletPolicyState, EligibilityCapability}
use vesta_core.Argus.Execute.{
  Programs, Unpacked, Execute, go, ◌>>=◌, allow_if, reject_if, require, ok_or, token_account_owner,
  token_account_amount, assert_transferring, flow_rules, destination_rules, list_rules,
  capability_ok, eligibility_rule, amount_rules, roll_day, velocity_rules, wallet_rules, rules,
  decide, conclude, handle_execute, TransferDecision,
}
use vesta_core.Argus.Error.{GuardError}
use vesta_core.Argus.Execute.Decision.{IsAudited, execute-IsAudited}
use vesta_core.Argus.Execute.Gift.{
  IsGenuine, IsGift, transfer_respects_policy, forged_call_fails, redemption_never_stranded,
}
use vesta_core.Argus.Execute.Velocity.{Call, gifts, IsLimited, velocity_holds}

abbrev zeros : ℕ → List ℕ
zeros zero = []
zeros (suc n) = 0 ∷ zeros n

-- The account data of a token account of `owner` that holds `amount`.
abbrev layout : ℕ → ℕ → List ℕ
layout owner amount = zeros 32 ++ (owner ∷ zeros 31) ++ (amount ∷ zeros 7)

abbrev programs : Programs
programs = record {
  token_2022 = 1;
  argus = 2;
  system = 0;
  wallet_state_address = λ m o. 100 + o;
  list_entry_address = λ m o. 200 + o;
  capability_address = λ m o. 300 + o;
}

-- Every rule is on: attested wallets only, a denylist, 90 a day in at most 3 gifts.
abbrev pub guard : GuardConfig
guard = record {
  version = 1;
  mint = 10;
  authority = 11;
  pending_authority = none;
  treasury = 12;
  aegis_program = 3;
  attestation_issuer = 13;
  policy = 0;
  policy_epoch = 5;
  screening_epoch = 6;
  paused = false;
  flags = 13;
  daily_gift_cap = 90;
  per_tx_cap = 50;
  max_wallet_balance = 250;
  transfers_per_day_cap = 3;
  cooldown_secs = 60;
  attestation_schema = 1;
  capability_ttl_secs = pos 3600;
  governed = true;
  active_policy_hash = 77;
  degrade_mode = 0;
  bump = 255;
}

abbrev fresh_counters : WalletPolicyState
fresh_counters = record {
  day = 18_999;
  sent_today = 80;
  transfers_today = 3;
  last_transfer_at = pos 1_641_599_000;
  bump = 254;
}

abbrev capability : EligibilityCapability
capability = record {
  version = 1;
  mint = 10;
  subject = 51;
  verdicts = 1;
  aegis_program = 3;
  policy_epoch = 5;
  screening_epoch = 6;
  jurisdiction = 0;
  tier = 0;
  issued_at = pos 0;
  expires_at = pos 2_000_000_000;
  bump = 253;
}

abbrev pub call : Execute
call = record {
  source = record {
    key = 60;
    owner = 1;
    data_bytes = layout 50 200;
    unpacked = some (record { mint = 10; transferring = some true });
  };
  mint = record { key = 10; delegate = some (some 99) };
  destination = record { key = 61; owner = 1; data_bytes = layout 51 240; unpacked = none };
  authority = 50;
  guard_config = guard;
  wallet_state = record { key = 150; owner = 2; is_empty = false; content = some fresh_counters };
  destination_owner = 51;
  destination_owner_program = 0;
  list_entry = record { key = 251; owner = 0; is_empty = true; content = none };
  capability = record { key = 351; owner = 2; is_empty = false; content = some capability };
}

-- Noon of day 19 000.
abbrev noon : ℤ
noon = pos 1_641_643_200

gifted : (s : WalletPolicyState) × ((handle_execute programs call noon 40).result ≡ ok (some s))
unfolding handle_execute rules conclude decide ◌>>=◌ allow_if reject_if require ok_or
    token_account_owner token_account_amount assert_transferring flow_rules destination_rules
    list_rules capability_ok eligibility_rule amount_rules roll_day velocity_rules wallet_rules
    unix_day ◌-ℤ◌
gifted = (_, refl)

transfer_respects_policy_example : IsGift programs call noon 40 gifted.0
transfer_respects_policy_example = transfer_respects_policy programs call noon 40 gifted.0 gifted.1

decided : (d : TransferDecision) × ((handle_execute programs call noon 40).decision ≡ some d)
unfolding handle_execute rules conclude decide ◌>>=◌ allow_if reject_if require ok_or
    token_account_owner token_account_amount assert_transferring flow_rules destination_rules
    list_rules capability_ok eligibility_rule amount_rules roll_day velocity_rules wallet_rules
    unix_day ◌-ℤ◌
decided = (_, refl)

-- The same call outside a transfer: the source's flag is not set.
abbrev forged : Execute
forged = record call {
  source = record call.source { unpacked = some (record { mint = 10; transferring = some false }) };
}

unset_flag : IsGenuine programs forged → ⊥
unset_flag g = cc

forged_call_fails_example :
    (e : GuardError) × (handle_execute programs forged noon 40
      ≡ record { decision = none; result = err e })
forged_call_fails_example = forged_call_fails programs forged noon 40 unset_flag

execute-IsAudited_example : IsAudited (handle_execute programs call noon 60)
execute-IsAudited_example = execute-IsAudited programs call noon 60

-- A redemption while the guard is paused and its trust is revoked.
abbrev redemption : Execute
redemption = record call {
  guard_config = record guard { paused = true; degrade_mode = 2 };
  destination = record { key = 12; owner = 1; data_bytes = []; unpacked = none };
}

abbrev in_transfer : Unpacked
in_transfer = record { mint = 10; transferring = some true }

sender : token_account_owner redemption.source ≡ go 50
unfolding token_account_owner ok_or
sender = refl

redemption_never_stranded_example : (handle_execute programs redemption noon 200).result ≡ ok none
redemption_never_stranded_example =
    redemption_never_stranded programs redemption noon 200 50 (some 99)
      (record {
        program = refl;
        account = in_transfer;
        unpacked = refl;
        mint = refl;
        transferring = refl;
      })
      sender refl (inr refl)

noon_dated : unix_day noon ≡ some 19_000
unfolding unix_day
noon_dated = refl

later_dated : unix_day (pos 1_641_643_300) ≡ some 19_000
unfolding unix_day
later_dated = refl

abbrev calls : List Call
calls =
    record { accounts = call; now = noon; day = 19_000; dated = noon_dated; amount = 40 }
    ∷ record {
      accounts = call;
      now = pos 1_641_643_300;
      day = 19_000;
      dated = later_dated;
      amount = 50;
    }
    ∷ record {
      accounts = call;
      now = pos 1_641_643_300;
      day = 19_000;
      dated = later_dated;
      amount = 1;
    }
    ∷ []

velocity_holds_example : IsLimited 90 3 19_000 fresh_counters (gifts programs fresh_counters calls)
velocity_holds_example =
    velocity_holds programs 90 3 19_000 fresh_counters calls (omega arith) (omega arith)
      (omega arith, refl, refl, (omega arith, refl, refl, (omega arith, refl, refl, tt)))
      (omega arith) (omega arith)
