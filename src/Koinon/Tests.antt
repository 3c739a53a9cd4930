-- ===== src/Koinon/Tests.antt =====
-- Runs of the alliance instructions on concrete accounts.
use vesta_core.Base.{◌≡◌, refl, true, false, none, List, [], ◌∷◌, pos, arith, Succeeds}
use vesta_core.Vesta.Samples.{protocol}
use vesta_core.Vesta.Alliance.{Alliance, AllianceMember}
use vesta_core.Koinon.{handle_create_alliance}
use vesta_core.Koinon.Handover.{
  Op, transfer, accept, pause, params, run, IsWellSet, strangers_change_nothing, alliance-IsWellSet,
}

abbrev pub market : Alliance
market = record {
  id = 3;
  authority = 9;
  pending_authority = none;
  name = [];
  member_count = 2;
  paused = false;
  fee_bps = 500;
  min_rate_bps = 5_000;
  max_rate_bps = 20_000;
  category = 0;
  metadata_uri = [];
  total_swaps = 0;
  total_ui_volume = 0;
  bump = 250;
}

abbrev strangers : List Op
strangers = transfer 4 4 ∷ accept 4 ∷ params 5 0 0 0 ∷ pause 4 true ∷ []

strangers_change_nothing_example : run market strangers ≡ market
strangers_change_nothing_example = strangers_change_nothing market strangers (
  (omega arith, λ e. cc),
  ((omega arith, λ e. cc), ((omega arith, λ e. cc), ((omega arith, λ e. cc), tt))),
)

created : Succeeds (handle_create_alliance protocol 9 250 3 [])
unfolding handle_create_alliance
created = (_, refl)

abbrev changes : List Op
changes = params 9 1_000 5_000 20_000 ∷ transfer 9 4 ∷ accept 4 ∷ params 4 1_001 0 0 ∷ []

alliance-IsWellSet_example : IsWellSet (run created.0 changes)
alliance-IsWellSet_example = alliance-IsWellSet protocol 9 250 3 [] created.0 changes created.1

abbrev pub cafe_member : AllianceMember
cafe_member = record {
  alliance = 70;
  merchant = 40;
  rate_bps_to_alliance = 10_000;
  swap_in_budget_raw = 1_000;
  swapped_in_today = 300;
  budget_day = 19_000;
  active = true;
  joined_at = pos 5;
  total_swapped_in = 0;
  total_swapped_out = 0;
  bump = 249;
}
