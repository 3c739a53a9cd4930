-- ===== src/Vesta/Campaign.antt =====
-- A merchant's campaign and a customer's progress in it (programs/vesta-core/src/state.rs).
use vesta_core.Base.{ℕ, Bool, ◌&&◌, ◌||◌, not, ℤ, ltb, ltb_ℤ, leb_ℤ, ◌==◌}
use vesta_core.Vesta.Constants.{Pubkey, Text}

abbrev pub kind_multiplier : ℕ
kind_multiplier = 0

abbrev pub kind_flat_bonus : ℕ
kind_flat_bonus = 1

abbrev pub kind_quest : ℕ
kind_quest = 2

pub record Campaign : Type 0 where
  pub merchant : Pubkey
  pub id : ℕ
  pub kind : ℕ
  pub multiplier_bps : ℕ
  pub flat_bonus : ℕ
  pub quest_target : ℕ
  pub quest_reward : ℕ
  pub min_spend_base : ℕ
  pub min_tier : ℕ
  pub points_budget : ℕ
  pub points_spent : ℕ
  pub per_customer_cap : ℕ
  pub starts_at : ℤ
  pub ends_at : ℤ
  pub participant_count : ℕ
  pub redemptions : ℕ
  pub name : Text
  pub active : Bool
  pub paused : Bool
  pub created_slot : ℕ
  pub bump : ℕ
  pub min_days_inactive : ℕ

unfoldable pub is_live : Campaign → ℤ → Bool
is_live c now =
    c.active
    && not c.paused
    && leb_ℤ c.starts_at now
    && ltb_ℤ now c.ends_at
    && (c.points_budget == 0 || ltb c.points_spent c.points_budget)

pub record CampaignProgress : Type 0 where
  pub campaign : Pubkey
  pub customer : Pubkey
  pub campaign_slot : ℕ
  pub visits : ℕ
  pub bonus_drawn : ℕ
  pub completed : Bool
  pub bump : ℕ
