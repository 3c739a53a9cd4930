-- ===== src/Aegis/Accreditation/Edges/Tests.antt =====
-- A verdict on a concrete accreditation.
use vesta_core.Base.{◌≡◌, refl, true, ◌↔◌, pos}
use vesta_core.Aegis.State.{TrustRoot, Accreditation, accreditation_is_live, permits}
use vesta_core.Aegis.Accreditation.{handle_verify_accreditation, judge_accreditation}
use vesta_core.Aegis.Samples.{registry, root_slot, charter_slot}
use vesta_core.Aegis.Accreditation.Edges.{IsTrusted, IsEdge, accreditation_iff}

chartered :
    (handle_verify_accreditation registry root_slot charter_slot 8 4 9 (pos 2_000)).ok ≡ true
unfolding handle_verify_accreditation judge_accreditation accreditation_is_live permits
chartered = refl

accreditation_iff_example :
    ((handle_verify_accreditation registry root_slot charter_slot 8 4 9 (pos 2_000)).ok ≡ true) ↔ (
      ((r : TrustRoot) × IsTrusted registry root_slot 8 r)
      × ((a : Accreditation) × IsEdge registry charter_slot 8 4 9 (pos 2_000) a))
accreditation_iff_example = accreditation_iff registry root_slot charter_slot 8 4 9 (pos 2_000)
