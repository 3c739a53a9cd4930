-- ===== src/Aegis/Accreditation/Grants/Tests.antt =====
-- An accreditation for two schemas.
use vesta_core.Base.{◌≡◌, refl, [], ◌∷◌, pos, contains, Succeeds}
use vesta_core.Aegis.State.{permits}
use vesta_core.Aegis.Accreditation.{root_authority, fill, handle_accredit_issuer}
use vesta_core.Aegis.Samples.{regulator}
use vesta_core.Aegis.Accreditation.Grants.{accredit_permits}

accredited :
    Succeeds (handle_accredit_issuer regulator 8 251 4 1 (2 ∷ 9 ∷ []) 756 (pos 0) (pos 500))
unfolding handle_accredit_issuer root_authority fill
accredited = (_, refl)

accredit_permits_example : permits accredited.0 9 ≡ contains (2 ∷ 9 ∷ []) 9
accredit_permits_example =
    accredit_permits regulator 8 251 4 1 (2 ∷ 9 ∷ []) 756 (pos 0) (pos 500) 9 accredited.1
