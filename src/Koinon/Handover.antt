-- ===== src/Koinon/Handover.antt =====
-- Who changes an alliance (programs/vesta-core/src/instructions/koinon.rs), and its limits.
use vesta_core.Base.{
  ℕ, ◌≤◌, ◌≡◌, ◌≢◌, refl, ap, ◌∙◌, ◌⊎◌, Bool, some, List, [], ◌∷◌, arith, Result, ok, ℤ,
}
use vesta_core.Vesta.Constants.{Pubkey, Text, max_alliance_fee_bps}
use vesta_core.Vesta.Error.{VestaError}
use vesta_core.Vesta.Merchant.{Config}
use vesta_core.Vesta.Alliance.{Alliance, AllianceMember}
use vesta_core.Koinon.{
  handle_create_alliance, authority_only, handle_transfer_alliance_authority,
  handle_accept_alliance_authority, check_rate_bounds, handle_set_alliance_paused,
  handle_set_alliance_params, handle_update_alliance_profile, JoinAlliance, Joined,
  handle_join_alliance, handle_set_swap_rate,
}

-- The instructions that change an alliance's settings, each with its signer.
pub data Op : Type 0 where
  transfer : Pubkey → Pubkey → Op
  accept : Pubkey → Op
  pause : Pubkey → Bool → Op
  params : Pubkey → ℕ → ℕ → ℕ → Op
  profile : Pubkey → ℕ → Text → Op

abbrev pub signer : Op → Pubkey
signer (transfer s _) = s
signer (accept s) = s
signer (pause s _) = s
signer (params s _ _ _) = s
signer (profile s _ _) = s

result : Alliance → Op → Result VestaError Alliance
result a (transfer s key) = handle_transfer_alliance_authority a s key
result a (accept s) = handle_accept_alliance_authority a s
result a (pause s paused) = handle_set_alliance_paused a s paused
result a (params s fee low high) = handle_set_alliance_params a s fee low high
result a (profile s category uri) = handle_update_alliance_profile a s category uri

-- A refused instruction leaves the alliance as it was.
settle : Alliance → Result VestaError Alliance → Alliance
settle a (ok a') = a'
settle a _ = a

pub run : Alliance → List Op → Alliance
unfolding result settle
run a [] = a
run a (o ∷ os) = run (settle a (result a o)) os

-- None of the signers is the alliance's authority or the key it has proposed.
abbrev pub IsStranger : Alliance → Pubkey → Type 0
IsStranger a key = (key ≢ a.authority) × (a.pending_authority ≢ some key)

abbrev pub AllStrangers : Alliance → List Op → Type 0
AllStrangers a [] = Unit
AllStrangers a (o ∷ os) = IsStranger a (signer o) × AllStrangers a os

stranger_refused : (a : Alliance) (o : Op) → IsStranger a (signer o) → settle a (result a o) ≡ a
unfolding settle result handle_transfer_alliance_authority handle_accept_alliance_authority
    handle_set_alliance_paused handle_set_alliance_params handle_update_alliance_profile
    authority_only
stranger_refused a (transfer s key) h = ground arith
stranger_refused a (accept s) h = ground arith
stranger_refused a (pause s paused) h = ground arith
stranger_refused a (params s fee low high) h = ground arith
stranger_refused a (profile s category uri) h = ground arith

-- Whatever handovers, pauses, parameters and profiles are sent, in whatever order, by keys that
-- are neither the alliance's authority nor the key it has proposed: the alliance does not
-- change.
pub strangers_change_nothing : (a : Alliance) (os : List Op) → AllStrangers a os → run a os ≡ a
unfolding run
strangers_change_nothing a [] h = refl
strangers_change_nothing a (o ∷ os) (h, hs) =
    ap (λ a'. run a' os) (stranger_refused a o h) ∙ strangers_change_nothing a os hs

-- The fee is at most the protocol's limit, and the rate bounds leave room for a rate.
pub record IsWellSet (a : Alliance) : Type 0 where
  pub fee : a.fee_bps ≤ max_alliance_fee_bps
  pub bounds : (a.max_rate_bps ≡ 0) ⊎ (a.min_rate_bps ≤ a.max_rate_bps)

step-IsWellSet : (a : Alliance) (o : Op) → IsWellSet a → IsWellSet (settle a (result a o))
unfolding settle result handle_transfer_alliance_authority handle_accept_alliance_authority
    handle_set_alliance_paused handle_set_alliance_params handle_update_alliance_profile
    authority_only
step-IsWellSet a (transfer s key) w = record { fee = ground arith; bounds = ground arith }
step-IsWellSet a (accept s) w = record { fee = ground arith; bounds = ground arith }
step-IsWellSet a (pause s paused) w = record { fee = ground arith; bounds = ground arith }
step-IsWellSet a (params s fee low high) w = record { fee = ground arith; bounds = ground arith }
step-IsWellSet a (profile s category uri) w = record { fee = ground arith; bounds = ground arith }

run-IsWellSet : (a : Alliance) (os : List Op) → IsWellSet a → IsWellSet (run a os)
unfolding run
run-IsWellSet a [] w = w
run-IsWellSet a (o ∷ os) w = run-IsWellSet (settle a (result a o)) os (step-IsWellSet a o w)

create-IsWellSet :
    (config : Config) (creator : Pubkey) (bump id : ℕ) (name : Text) (a : Alliance)
    → handle_create_alliance config creator bump id name ≡ ok a
    → IsWellSet a
unfolding handle_create_alliance
create-IsWellSet config creator bump id name a h = record {
  fee = ground arith;
  bounds = ground arith;
}

-- An alliance that was created and then changed by any handovers, pauses, parameters and
-- profiles, by anyone and in any order, has a fee of at most 10%, and rate bounds of which the
-- upper is off or not below the lower.
pub alliance-IsWellSet :
    (config : Config) (creator : Pubkey) (bump id : ℕ) (name : Text) (a : Alliance) (os : List Op)
    → handle_create_alliance config creator bump id name ≡ ok a
    → IsWellSet (run a os)
alliance-IsWellSet config creator bump id name a os h =
    run-IsWellSet a os (create-IsWellSet config creator bump id name a h)

-- The rate is positive and within the alliance's bounds, where it has them.
abbrev pub IsWithinBounds : Alliance → ℕ → Type 0
IsWithinBounds a rate =
    (1 ≤ rate)
    × ((a.min_rate_bps ≡ 0) ⊎ (a.min_rate_bps ≤ rate))
    × ((a.max_rate_bps ≡ 0) ⊎ (rate ≤ a.max_rate_bps))

-- A merchant that joins brings a positive rate within the alliance's bounds, and the authority signs.
pub join_rate :
    (j : JoinAlliance) (now : ℤ) (rate budget : ℕ) (r : Joined)
    → handle_join_alliance j now rate budget ≡ ok r
    → IsWithinBounds j.alliance r.member.rate_bps_to_alliance
      × (j.alliance.authority ≡ j.alliance_authority)
unfolding handle_join_alliance check_rate_bounds authority_only
join_rate j now rate budget r h = ground arith

-- A change of a member's rate is to a positive rate within the alliance's bounds, and the authority
-- signs.
pub set_rate :
    (a : Alliance) (m m' : AllianceMember) (key : Pubkey) (rate : ℕ)
    → handle_set_swap_rate a m key rate ≡ ok m'
    → IsWithinBounds a m'.rate_bps_to_alliance × (a.authority ≡ key)
unfolding handle_set_swap_rate check_rate_bounds authority_only
set_rate a m m' key rate h = ground arith
