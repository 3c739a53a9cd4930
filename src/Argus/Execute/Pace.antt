-- ===== src/Argus/Execute/Pace.antt =====
-- What the velocity rules have established where they let a transfer go on.
use vesta_core.Base.{
  ℕ, ◌+◌, ◌≤◌, ◌<◌, ◌≡◌, ◌⊎◌, Bool, true, false, ◌&&◌, not, some, ℤ, pos, arith, ◌==◌, u64_max,
  eqb_ℤ, ltb_ℤ, ltb, leb, min, u16_max, checked_add, saturating_add,
}
use vesta_core.Argus.State.{GuardConfig, WalletPolicyState}
use vesta_core.Argus.Execute.{go, velocity_rules, elapsed_since}
use vesta_core.Argus.Execute.Inversion.{go_injective, >>=-go, reject_if_inv, ok_or_inv}

-- The three velocity limits on the rolled counters, and what the gift commits.
pub record IsPaced (c : GuardConfig) (s : WalletPolicyState) (now : ℤ) (amount : ℕ)
    (s' : WalletPolicyState) : Type 0 where
  pub cooled :
      (c.cooldown_secs ≡ 0)
      ⊎ (eqb_ℤ s.last_transfer_at (pos 0) ≡ true)
      ⊎ (ltb_ℤ (elapsed_since now s.last_transfer_at) (pos c.cooldown_secs) ≡ false)
  pub counted : (c.transfers_per_day_cap ≡ 0) ⊎ (s.transfers_today < c.transfers_per_day_cap)
  pub sent_exact : s'.sent_today ≡ s.sent_today + amount
  pub sent_capped : s'.sent_today ≤ c.daily_gift_cap
  pub sent_fits : s'.sent_today ≤ u64_max
  pub count_exact : s'.transfers_today ≡ min (s.transfers_today + 1) u16_max
  pub stamped : s'.last_transfer_at ≡ now
  pub day_kept : s'.day ≡ s.day

cooled_of :
    (secs : ℕ) (never early : Bool)
    → (ltb 0 secs && not never && early) ≡ false
    → (secs ≡ 0) ⊎ (never ≡ true) ⊎ (early ≡ false)
cooled_of secs never early h = ground arith

paced :
    (c : GuardConfig) (s : WalletPolicyState) (now : ℤ) (amount sent : ℕ) (s' : WalletPolicyState)
    → (ltb 0 c.cooldown_secs
        && not (eqb_ℤ s.last_transfer_at (pos 0))
        && ltb_ℤ (elapsed_since now s.last_transfer_at) (pos c.cooldown_secs))
      ≡ false
    → (not (c.transfers_per_day_cap == 0) && leb c.transfers_per_day_cap s.transfers_today) ≡ false
    → checked_add u64_max s.sent_today amount ≡ some sent
    → ltb c.daily_gift_cap sent ≡ false
    → record s {
      sent_today = sent;
      transfers_today = saturating_add u16_max s.transfers_today 1;
      last_transfer_at = now;
    }
      ≡ s'
    → IsPaced c s now amount s'
paced c s now amount sent s' e0 e1 e2 e3 e4 = record {
  cooled = cooled_of c.cooldown_secs _ _ e0;
  counted = ground arith;
  sent_exact = ground arith;
  sent_capped = ground arith;
  sent_fits = ground arith;
  count_exact = ground arith;
  stamped = ground arith;
  day_kept = ground arith;
}

pub velocity_rules_inv :
    (c : GuardConfig) (s : WalletPolicyState) (now : ℤ) (amount : ℕ) {s' : WalletPolicyState}
    → velocity_rules c s now amount ≡ go s'
    → IsPaced c s now amount s'
unfolding velocity_rules
velocity_rules_inv c s now amount {s'} h =
    let (_, e0, h0) = >>=-go _ _ h in
    let (_, e1, h1) = >>=-go _ _ h0 in
    let (sent, e2, h2) = >>=-go _ _ h1 in
    let (_, e3, h3) = >>=-go _ _ h2 in
    paced c s now amount sent s' (reject_if_inv _ _ _ e0) (reject_if_inv _ _ _ e1)
      (ok_or_inv _ _ e2) (reject_if_inv _ _ _ e3) (go_injective h3)
