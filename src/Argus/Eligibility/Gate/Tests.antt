-- ===== src/Argus/Eligibility/Gate/Tests.antt =====
-- A concrete wallet's capability, from its refresh to the hook.
use vesta_core.Base.{◌≡◌, ◌≢◌, ◌<ℤ◌, ◌↔◌, refl, true, false, some, pos, arith, Succeeds, ◌+ℤ◌, ◌-ℤ◌}
use vesta_core.Aegis.State.{attestation_is_live}
use vesta_core.Aegis.Policy.{handle_verify_policy}
use vesta_core.Aegis.Verify.{evaluate, judge}
use vesta_core.Aegis.Verify.Verdicts.{IsVerified}
use vesta_core.Aegis.Registry.{read_verdict}
use vesta_core.Aegis.Samples.{kyc, at_home, network, network-IsDeployed, deployed_at}
use vesta_core.Argus.State.{GuardConfig}
use vesta_core.Argus.Execute.{Execute, grants}
use vesta_core.Argus.Execute.Tests.{guard, call}
use vesta_core.Argus.Eligibility.{RefreshEligibility, ask, handle_refresh_eligibility}
use vesta_core.Argus.Eligibility.Gate.{capability_gate}

abbrev strict : GuardConfig
strict = record guard { policy = 15 }

abbrev asking : RefreshEligibility
asking = record {
  mint = 10;
  guard_config = strict;
  subject = 5;
  capability_bump = 240;
  attestation = at_home;
  policy = record { key = 15; owner = 3; is_empty = false; content = some kyc };
  aegis_program = 3;
}

refreshed : Succeeds (handle_refresh_eligibility network asking (pos 2_000))
unfolding handle_refresh_eligibility ask read_verdict handle_verify_policy evaluate judge
    attestation_is_live ◌+ℤ◌ ◌-ℤ◌
refreshed = (_, refl)

abbrev hook : Execute
hook = record call { guard_config = strict }

enforced : strict.policy ≢ 0
enforced = omega arith

capability_gate_example : (grants hook (pos 2_100) 5 refreshed.0 ≡ true) ↔ (
    (pos 2_100 <ℤ refreshed.0.expires_at)
    × ((kyc.deprecated ≡ false) × IsVerified (deployed_at 3) at_home 4 5 2 (pos 5_000) (pos 2_000)))
capability_gate_example =
    capability_gate network asking kyc (pos 2_000) hook (pos 2_100) (network-IsDeployed 3) enforced
      refl refl refreshed.1 refl refl refl refl
