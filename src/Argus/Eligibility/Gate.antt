-- ===== src/Argus/Eligibility/Gate.antt =====
-- From a refreshed capability to the decision of the transfer hook
-- (programs/argus/src/instructions/refresh_eligibility.rs, execute.rs, programs/aegis/src/instructions/policy.rs).
mod Tests
use mathlib.Core.Path.{subst}
use vesta_core.Base.{
  ℕ, ◌≡◌, ◌≢◌, ◌↔◌, ◌⊎◌, inl, inr, refl, sym, ap, ◌∙◌, Bool, true, false, not, ◌&&◌, Option, none,
  some, ℤ, pos, ◌<ℤ◌, leb_ℤ, checked_add_i64, bit_and, ◌==◌, ==→eq, ok_or-ok, if◌then◌else◌, arith,
  Result, ok, ◌>>=◌, ◌>>◌, require, require_inv, ok_or, >>=-ok, ok-inj, Slot,
}
use vesta_core.Aegis.State.{Attestation, Policy}
use vesta_core.Aegis.Verify.{Verdict}
use vesta_core.Aegis.Policy.{handle_verify_policy}
use vesta_core.Aegis.Policy.Verdicts.{policy_iff}
use vesta_core.Aegis.Verify.Verdicts.{IsVerified}
use vesta_core.Aegis.Registry.{Registry, Reply, IsDeployed, read_verdict, read_verdict-own}
use vesta_core.Argus.Error.{
  GuardError, aegis_program_mismatch, meta_list_mismatch, eligibility_stale, overflow,
}
use vesta_core.Argus.State.{
  Pubkey, default_key, state_version, predicate_attestation_bit, GuardConfig, EligibilityCapability,
}
use vesta_core.Argus.Execute.{Execute, grants, is_bound}
use vesta_core.Argus.Eligibility.{RefreshEligibility, ask, ttl_of, handle_refresh_eligibility}

-- A refresh that goes through.
pub record IsRefreshed (aegis : Registry GuardError) (a : RefreshEligibility) (now : ℤ)
    (cap : EligibilityCapability) : Type 0 where
  pub program : a.aegis_program ≡ a.guard_config.aegis_program
  pub reply : Reply
  pub asked : ask aegis a now ≡ ok reply
  pub verdict : Verdict
  pub answered :
      read_verdict reply a.guard_config.aegis_program eligibility_stale aegis_program_mismatch
      ≡ ok verdict
  pub bits : cap.verdicts ≡ (if verdict.ok then predicate_attestation_bit else 0)
  pub bound :
      (cap.version ≡ state_version)
      × (cap.mint ≡ a.mint)
      × (cap.subject ≡ a.subject)
      × (cap.aegis_program ≡ a.guard_config.aegis_program)
      × (cap.policy_epoch ≡ a.guard_config.policy_epoch)
      × (cap.screening_epoch ≡ a.guard_config.screening_epoch)

refresh_inv :
    (aegis : Registry GuardError) (a : RefreshEligibility) (now : ℤ) {cap : EligibilityCapability}
    → handle_refresh_eligibility aegis a now ≡ ok cap
    → IsRefreshed aegis a now cap
unfolding handle_refresh_eligibility
refresh_inv aegis a now h =
    let (_, e1, h) =
      >>=-ok (require (a.aegis_program == a.guard_config.aegis_program) aegis_program_mismatch) _
        h in
    let (reply, e2, h) = >>=-ok (ask aegis a now) _ h in
    let (verdict, e3, h) =
      >>=-ok
        (read_verdict reply a.guard_config.aegis_program eligibility_stale aegis_program_mismatch) _
        h in
    let (_, _, h) = >>=-ok (ok_or (checked_add_i64 now (ttl_of a.guard_config)) overflow) _ h in
    let made = ok-inj _ h refl in
    record {
      program = ==→eq _ _ (require_inv _ _ e1);
      reply = reply;
      asked = e2;
      verdict = verdict;
      answered = e3;
      bits = ap (λ c. c.verdicts) made;
      bound = (
        ap (λ c. c.version) made,
        ap (λ c. c.mint) made,
        ap (λ c. c.subject) made,
        ap (λ c. c.aegis_program) made,
        ap (λ c. c.policy_epoch) made,
        ap (λ c. c.screening_epoch) made,
      );
    }

ask_policy :
    (aegis : Registry GuardError) (a : RefreshEligibility) (now : ℤ) {reply : Reply}
    → a.guard_config.policy ≢ default_key
    → ask aegis a now ≡ ok reply
    → (a.policy.key ≡ a.guard_config.policy)
      × (aegis.verify_policy a.aegis_program a.policy a.attestation a.subject now ≡ ok reply)
unfolding ask
ask_policy aegis a now ne h = ground arith

bound_lem :
    (x : Execute) (owner : Pubkey) (cap : EligibilityCapability)
    → cap.version ≡ state_version
    → cap.mint ≡ x.mint.key
    → cap.subject ≡ owner
    → cap.aegis_program ≡ x.guard_config.aegis_program
    → cap.policy_epoch ≡ x.guard_config.policy_epoch
    → cap.screening_epoch ≡ x.guard_config.screening_epoch
    → is_bound x owner cap ≡ true
bound_lem x owner cap v m s p e f = ground arith

-- The hook reads a bound capability until it expires.
hook_reads :
    (x : Execute) (later : ℤ) (owner : Pubkey) (cap : EligibilityCapability) (good : Bool)
    → is_bound x owner cap ≡ true
    → cap.verdicts ≡ (if good then predicate_attestation_bit else 0)
    → (grants x later owner cap ≡ true) ↔ ((later <ℤ cap.expires_at) × (good ≡ true))
hook_reads x later owner cap true bound b = rw (bound, b) (λ h. ground arith, λ r. ground arith)
hook_reads x later owner cap false bound b = rw (bound, b) (λ h. ground arith, λ r. cc)

policy_verdict :
    (aegis : Registry GuardError) (a : RefreshEligibility) (policy : Policy) (now : ℤ)
    {cap : EligibilityCapability}
    → IsDeployed aegis a.guard_config.aegis_program
    → a.guard_config.policy ≢ default_key
    → a.policy.owner ≡ a.guard_config.aegis_program
    → a.policy.content ≡ some policy
    → (r : IsRefreshed aegis a now cap)
    → r.verdict
      ≡ handle_verify_policy
          (aegis.program a.guard_config.aegis_program)
          policy
          a.attestation
          a.subject
          now
policy_verdict aegis a policy now d ne o c r =
    let key = a.guard_config.aegis_program in
    let v = handle_verify_policy (aegis.program key) policy a.attestation a.subject now in
    let called =
      subst (λ k. aegis.verify_policy k a.policy a.attestation a.subject now ≡ ok r.reply) r.program
        (ask_policy aegis a now ne r.asked).1 in
    let own =
      ok-inj _ (d.verifies_policies a.policy policy a.attestation a.subject now o c) called in
    ok-inj _
      (subst (λ y. read_verdict y key eligibility_stale aegis_program_mismatch ≡ ok r.verdict)
        (sym own) r.answered)
      (read_verdict-own key v eligibility_stale aegis_program_mismatch)

-- At a mint that enforces a policy of a deployed registry: after a refresh of a wallet's capability,
-- the transfer hook, at any later time and under a configuration of the same epochs and registry,
-- accepts the capability exactly until its expiry and if, at the refresh, the policy was not deprecated
-- and the account held the wallet's credential of the policy's issuer and schema, in force and no
-- older than the policy's limit.
pub capability_gate :
    (aegis : Registry GuardError) (a : RefreshEligibility) (policy : Policy) (now : ℤ) (x : Execute)
    (later : ℤ) {cap : EligibilityCapability}
    → IsDeployed aegis a.guard_config.aegis_program
    → a.guard_config.policy ≢ default_key
    → a.policy.owner ≡ a.guard_config.aegis_program
    → a.policy.content ≡ some policy
    → handle_refresh_eligibility aegis a now ≡ ok cap
    → x.mint.key ≡ a.mint
    → x.guard_config.aegis_program ≡ a.guard_config.aegis_program
    → x.guard_config.policy_epoch ≡ a.guard_config.policy_epoch
    → x.guard_config.screening_epoch ≡ a.guard_config.screening_epoch
    → (grants x later a.subject cap ≡ true) ↔ (
        (later <ℤ cap.expires_at)
        × ((policy.deprecated ≡ false)
            × IsVerified
                (aegis.program a.guard_config.aegis_program)
                a.attestation
                policy.issuer
                a.subject
                policy.schema_id
                policy.freshness_secs
                now))
capability_gate aegis a policy now x later {cap} d ne o c h m p e f =
    let r = refresh_inv aegis a now h in
    let (v, cm, cs, cp, ce, cf) = r.bound in
    let bound =
      bound_lem x a.subject cap v (cm ∙ sym m) cs (cp ∙ sym p) (ce ∙ sym e) (cf ∙ sym f) in
    let reads = hook_reads x later a.subject cap r.verdict.ok bound r.bits in
    let same = ap (λ w. w.ok) (policy_verdict aegis a policy now d ne o c r) in
    let iff =
      policy_iff (aegis.program a.guard_config.aegis_program) policy a.attestation a.subject now in
    (λ g. let (t, w) = reads.0 g in (t, iff.0 (sym same ∙ w)), λ g. reads.1 (g.0, same ∙ iff.1 g.1))
