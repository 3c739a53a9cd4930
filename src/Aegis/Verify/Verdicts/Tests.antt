-- ===== src/Aegis/Verify/Verdicts/Tests.antt =====
-- Verdicts on concrete credentials.
use vesta_core.Base.{◌≡◌, refl, true, false, ◌↔◌, pos, ◌-ℤ◌}
use vesta_core.Aegis.State.{attestation_is_live}
use vesta_core.Aegis.Verify.{evaluate, judge, fail, out_of_window}
use vesta_core.Aegis.Samples.{registry, at_home}
use vesta_core.Aegis.Verify.Verdicts.{IsVerified, IsRefused, verify_iff, verify_error}

accepted_at_home : (evaluate registry at_home 4 5 2 (pos 5_000) (pos 2_000)).ok ≡ true
unfolding evaluate judge attestation_is_live ◌-ℤ◌
accepted_at_home = refl

verify_iff_example :
    ((evaluate registry at_home 4 5 2 (pos 5_000) (pos 2_000)).ok ≡ true)
    ↔ IsVerified registry at_home 4 5 2 (pos 5_000) (pos 2_000)
verify_iff_example = verify_iff registry at_home 4 5 2 (pos 5_000) (pos 2_000)

expired_at_home : (evaluate registry at_home 4 5 2 (pos 0) (pos 9_000)).ok ≡ false
unfolding evaluate judge attestation_is_live fail
expired_at_home = refl

verify_error_example : IsRefused registry at_home 4 5 2 (pos 0) (pos 9_000) out_of_window
unfolding evaluate judge attestation_is_live fail
verify_error_example = verify_error registry at_home 4 5 2 (pos 0) (pos 9_000) expired_at_home
