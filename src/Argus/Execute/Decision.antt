-- ===== src/Argus/Execute/Decision.antt =====
-- The audit trail of the hook (`decide` and its calls in programs/argus/src/instructions/execute.rs).
use vesta_core.Base.{
  ℕ, ◌≡◌, refl, ◌⊎◌, inl, inr, Bool, true, false, Option, none, some, ℤ, ok, err, ◌==◌,
  if◌then◌else◌,
}
use vesta_core.Argus.Error.{
  GuardError, mint_paused, gifting_disabled, per_tx_exceeded, balance_cap_exceeded, cooldown_active,
  transfer_count_exceeded, gift_cap_exceeded, not_allowlisted, deny_listed,
  program_owned_destination, eligibility_stale, trust_degraded,
}
use vesta_core.Argus.State.{Pubkey, WalletPolicyState}
use vesta_core.Argus.Execute.{
  Programs, Execute, Step, go, allow, reject, fault, ◌>>=◌, TransferDecision, Outcome, flow_rules,
  destination_rules, list_rules, eligibility_rule, amount_rules, wallet_rules, rules, entry,
  run_from, conclude, handle_execute, allow_if, reject_if, require, ok_or,
}

-- The error that goes with the reason of a refusal.
abbrev pub refusal : ℕ → Option GuardError
refusal reason =
    if reason == 10
    then some mint_paused
    else if reason == 11
    then some gifting_disabled
    else if reason == 12
    then some program_owned_destination
    else if reason == 13
    then some not_allowlisted
    else if reason == 14
    then some deny_listed
    else if reason == 16
    then some per_tx_exceeded
    else if reason == 17
    then some balance_cap_exceeded
    else if reason == 18
    then some cooldown_active
    else if reason == 19
    then some transfer_count_exceeded
    else if reason == 20
    then some gift_cap_exceeded
    else if reason == 23
    then some eligibility_stale
    else if reason == 24
    then some trust_degraded
    else none

-- A course of the rules whose reasons mean what they say: only the issuer's and the treasury's
-- flows and the empty transfer are let through early, and a refusal's error is that of its reason.
data IsReasoned {A : Type 0} : Step A → Type 0 where
  goes : (a : A) → IsReasoned (go a)
  allows : (reason : ℕ) → (reason ≡ 0) ⊎ (reason ≡ 1) ⊎ (reason ≡ 3) → IsReasoned (allow reason)
  rejects : (reason : ℕ) (e : GuardError) → refusal reason ≡ some e → IsReasoned (reject reason e)
  faults : (e : GuardError) → IsReasoned (fault e)

infixr 20 ◌⨟◌
◌⨟◌ :
    {A B : Type 0} {m : Step A} {f : A → Step B}
    → IsReasoned m
    → ((a : A) → IsReasoned (f a))
    → IsReasoned (m >>= f)
unfolding ◌>>=◌
goes a ⨟ k = k a
allows r h ⨟ k = allows r h
rejects r e h ⨟ k = rejects r e h
faults e ⨟ k = faults e

of_allow_if :
    (c : Bool) (reason : ℕ)
    → (reason ≡ 0) ⊎ (reason ≡ 1) ⊎ (reason ≡ 3)
    → IsReasoned (allow_if c reason)
unfolding allow_if
of_allow_if true reason h = allows reason h
of_allow_if false reason h = goes tt

of_reject_if :
    (c : Bool) (reason : ℕ) (e : GuardError)
    → refusal reason ≡ some e
    → IsReasoned (reject_if c reason e)
unfolding reject_if
of_reject_if true reason e h = rejects reason e h
of_reject_if false reason e h = goes tt

of_require : (c : Bool) (e : GuardError) → IsReasoned (require c e)
unfolding require
of_require true e = goes tt
of_require false e = faults e

of_ok_or : {A : Type 0} (o : Option A) (e : GuardError) → IsReasoned (ok_or o e)
unfolding ok_or
of_ok_or none e = faults e
of_ok_or (some a) e = goes a

of_if :
    {A : Type 0} (c : Bool) {s t : Step A}
    → IsReasoned s
    → IsReasoned t
    → IsReasoned (if c then s else t)
of_if true h k = h
of_if false h k = k

of_flow_rules : (x : Execute) (amount : ℕ) → IsReasoned (flow_rules x amount)
unfolding flow_rules
of_flow_rules x amount = of_ok_or _ _ ⨟ λ d. of_allow_if _ _ (inl refl) ⨟ λ _.
    of_allow_if _ _ (inr (inl refl)) ⨟ λ _. of_reject_if _ _ _ refl ⨟ λ _.
    of_reject_if _ _ _ refl ⨟ λ _. of_allow_if _ _ (inr (inr refl)) ⨟ λ _. of_reject_if _ _ _ refl

of_destination_rules : (env : Programs) (x : Execute) → IsReasoned (destination_rules env x)
unfolding destination_rules
of_destination_rules env x =
    of_ok_or _ _ ⨟ λ owner. of_require _ _ ⨟ λ _. of_reject_if _ _ _ refl ⨟ λ _. goes owner

of_list_rules :
    (env : Programs) (x : Execute) (owner : Pubkey) → IsReasoned (list_rules env x owner)
unfolding list_rules
of_list_rules env x owner =
    of_if _ (of_require _ _ ⨟ λ _. of_reject_if _ _ _ refl ⨟ λ _. of_reject_if _ _ _ refl) (goes tt)

of_eligibility_rule :
    (env : Programs) (x : Execute) (now : ℤ) (owner : Pubkey)
    → IsReasoned (eligibility_rule env x now owner)
unfolding eligibility_rule
of_eligibility_rule env x now owner =
    of_if _
      ((of_require _ _ ⨟ λ _. of_if _ (goes false) (of_ok_or _ _ ⨟ λ cap. goes _)) ⨟ λ eligible.
        of_reject_if _ _ _ refl)
      (goes tt)

of_amount_rules : (x : Execute) (amount : ℕ) → IsReasoned (amount_rules x amount)
unfolding amount_rules
of_amount_rules x amount = of_reject_if _ _ _ refl ⨟ λ _.
    of_if _ (goes tt) (of_ok_or _ _ ⨟ λ balance. of_reject_if _ _ _ refl)

of_wallet_rules :
    (env : Programs) (x : Execute) (now : ℤ) (amount : ℕ) (owner : Pubkey)
    → IsReasoned (wallet_rules env x now amount owner)
unfolding wallet_rules
of_wallet_rules env x now amount owner = of_require _ _ ⨟ λ _. of_require _ _ ⨟ λ _.
    of_ok_or _ _ ⨟ λ stored. of_ok_or _ _ ⨟ λ today. of_reject_if _ _ _ refl ⨟ λ _.
    of_reject_if _ _ _ refl ⨟ λ _. of_ok_or _ _ ⨟ λ sent. of_reject_if _ _ _ refl ⨟ λ _. goes _

of_rules :
    (env : Programs) (x : Execute) (now : ℤ) (amount : ℕ) (owner : Pubkey)
    → IsReasoned (rules env x now amount owner)
unfolding rules
of_rules env x now amount owner = of_flow_rules x amount ⨟ λ _. of_destination_rules env x ⨟ λ to.
    of_list_rules env x to ⨟ λ _. of_eligibility_rule env x now to ⨟ λ _.
    of_amount_rules x amount ⨟ λ _. of_wallet_rules env x now amount owner

-- What an outcome may say: an allowed transfer succeeds, with one of the four reasons to allow it,
-- and writes the counters exactly when it is a gift; a refused one fails with its reason's error;
-- an outcome with no decision is an error.
abbrev pub IsAudited : Outcome → Type 0
IsAudited o =
    ((d : TransferDecision) × (o.decision ≡ some d)
      × (d.allowed ≡ true)
      × (((d.reason ≡ 2) × ((s : WalletPolicyState) × (o.result ≡ ok (some s))))
          ⊎ (((d.reason ≡ 0) ⊎ (d.reason ≡ 1) ⊎ (d.reason ≡ 3)) × (o.result ≡ ok none))))
    ⊎ ((d : TransferDecision) × (o.decision ≡ some d)
        × (d.allowed ≡ false)
        × ((e : GuardError) × (o.result ≡ err e) × (refusal d.reason ≡ some e)))
    ⊎ ((o.decision ≡ none) × ((e : GuardError) × (o.result ≡ err e)))

conclude-IsAudited :
    (x : Execute) (owner : Pubkey) (amount : ℕ) (s : Step WalletPolicyState)
    → IsReasoned s
    → IsAudited (conclude x owner amount s)
unfolding conclude
conclude-IsAudited x owner amount (go s) h = inl (_, refl, refl, inl (refl, (s, refl)))
conclude-IsAudited x owner amount (allow r) (allows _ h) = inl (_, refl, refl, inr (h, refl))
conclude-IsAudited x owner amount (reject r e) (rejects _ _ h) =
    inr (inl (_, refl, refl, (e, refl, h)))
conclude-IsAudited x owner amount (fault e) h = inr (inr (refl, (e, refl)))

run_from-IsAudited :
    (env : Programs) (x : Execute) (now : ℤ) (amount : ℕ) (s : Step Pubkey)
    → IsAudited (run_from env x now amount s)
run_from-IsAudited env x now amount (go owner) =
    conclude-IsAudited x owner amount _ (of_rules env x now amount owner)
run_from-IsAudited env x now amount (allow _) = inr (inr (refl, (_, refl)))
run_from-IsAudited env x now amount (reject _ e) = inr (inr (refl, (e, refl)))
run_from-IsAudited env x now amount (fault e) = inr (inr (refl, (e, refl)))

-- The hook's audit trail is faithful: for any accounts, clock and amount, the emitted decision says
-- "allowed" exactly when the call succeeds, the reason of a refusal is the one of the error that
-- reverts the transfer, and the counters are written exactly by a gift.
pub execute-IsAudited :
    (env : Programs) (x : Execute) (now : ℤ) (amount : ℕ)
    → IsAudited (handle_execute env x now amount)
unfolding handle_execute
execute-IsAudited env x now amount = run_from-IsAudited env x now amount (entry env x)
