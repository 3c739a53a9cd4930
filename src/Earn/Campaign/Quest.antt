-- ===== src/Earn/Campaign/Quest.antt =====
-- The quests of a campaign.
use vesta_core.Base.{ℕ, ◌≤◌, ◌<◌, ◌≡◌, ◌⊎◌, true, false, ℤ, arith, ◌≢◌, ok}
use vesta_core.Vesta.Merchant.{Merchant}
use vesta_core.Vesta.Campaign.{Campaign, CampaignProgress, kind_quest}
use vesta_core.Earn.{MintTo}
use vesta_core.Earn.Campaign.{
  EarnPointsCampaign, CampaignEarned, count_visit, gross_bonus, completes, book_progress,
  handle_earn_points_campaign,
}
use vesta_core.Earn.Campaign.Bonus.{handle_inv, clamp_bonus_bounds, count_visit_keeps, resumed}

pub gross_quest :
    (c : Campaign) (g : CampaignProgress) (m : Merchant) (amount preview : ℕ) {gross : ℕ}
    → c.kind ≡ kind_quest
    → gross_bonus c g m amount preview ≡ ok gross
    → ((gross ≡ 0) ⊎ (gross ≡ c.quest_reward))
      × (g.completed ≡ true → gross ≡ 0)
      × (gross ≢ 0 → c.quest_target ≤ g.visits)
unfolding gross_bonus
gross_quest c g m amount preview k h = ground arith

-- An earn under a quest with a positive reward completes it exactly by paying the full reward: then the
-- quest was open, its target of visits is reached with this visit counted, and it is stored as completed.
-- Any other earn pays less than the reward and leaves the stored completion as it was, and one under a
-- completed quest pays no bonus and completes nothing.
pub quest_pays_once :
    (mint_to : MintTo) (a : EarnPointsCampaign) (now : ℤ) (amount visit_day : ℕ)
    (r : CampaignEarned)
    → a.campaign.kind ≡ kind_quest
    → 0 < a.campaign.quest_reward
    → handle_earn_points_campaign mint_to a now amount visit_day ≡ ok r
    → (((r.quest_completed ≡ false)
          × (r.bonus < a.campaign.quest_reward)
          × (r.progress.completed ≡ (resumed a).completed))
        ⊎ ((r.quest_completed ≡ true)
            × (r.bonus ≡ a.campaign.quest_reward)
            × ((resumed a).completed ≡ false)
            × (a.campaign.quest_target ≤ r.progress.visits)
            × (r.progress.completed ≡ true)))
      × (((resumed a).completed ≡ false) ⊎ ((r.bonus ≡ 0) × (r.quest_completed ≡ false)))
unfolding book_progress completes
quest_pays_once mint_to a now amount visit_day r q pos h =
    let k = (handle_inv mint_to a now amount visit_day h).payment in
    let g = count_visit a.campaign (resumed a) in
    ground (
      arith,
      gross_quest a.campaign g (handle_inv mint_to a now amount visit_day h).merchant amount
          k.preview q k.grossed,
      clamp_bonus_bounds a.campaign g k.gross,
      count_visit_keeps a.campaign (resumed a),
      k.paid,
      k.done,
      k.progress,
    )
