-- ===== src/Argus/Governance/Integrity/Steps.antt =====
-- The invariant of a governed mint under each instruction.
use mathlib.Core.Path.{subst}
use vesta_core.Base.{
  ok-inj, require_inv, >>=-ok, ℕ, ◌≡◌, ◌≢◌, refl, sym, ap, ◌∙◌, ◌⊎◌, inl, inr, not, Option, none,
  some, ℤ, pos, ◌==◌, arith, ok, require, expect, ok_or,
}
use vesta_core.Argus.Error.{GuardError, policy_pinned, invalid_policy, policy_hash_mismatch}
use vesta_core.Argus.State.{Pubkey, Hash, GuardConfig}
use vesta_core.Argus.Policy.{PolicyDoc}
use vesta_core.Argus.Roles.{Role, RoleRegistry, require_role}
use vesta_core.Argus.Governance.{
  PolicyVersion, PolicyPointer, handle_propose_policy, handle_pin_policy,
}
use vesta_core.Argus.Governance.Lifecycle.{IsRepointed, activate_lem, approve_lem, approved_as}
use vesta_core.Argus.Governance.Rollback.{rollback_lem}
use vesta_core.Argus.Governance.Integrity.{
  World, put, Op, propose, approve, activate, rollback, pin, propose_role, apply_role, configure,
  set_paused, transfer_authority, accept_authority, stored, propose_on, approve_on, activate_on,
  rollback_on, step, IsVetted, IsHonest, IsAnchored, commit_lem, stored_inv, in_force_put,
  IsHonest-put, is_free,
}
use vesta_core.Argus.Governance.Integrity.Guard.{
  IsSamePolicy, configure_keeps, pause_keeps, transfer_keeps, accept_keeps,
}

record IsProposed (hash : PolicyDoc → Option Hash) (pointer : PolicyPointer) (h : Hash)
    (r : PolicyVersion × PolicyPointer) : Type 0 where
  named : r.0.policy_hash ≡ h
  hashed : hash r.0.doc ≡ some h
  unapproved : r.0.approved_at ≡ pos 0
  waiting : r.1.pending_approved_at ≡ pos 0
  active : r.1.active_hash ≡ pointer.active_hash

propose_inv :
    (hash : PolicyDoc → Option Hash) (bump : ℕ) (registry : RoleRegistry) (pointer : PolicyPointer)
    (author : Pubkey) (h : Hash) (doc : PolicyDoc) (now : ℤ) {r : PolicyVersion × PolicyPointer}
    → handle_propose_policy hash bump registry pointer author h doc now ≡ ok r
    → IsProposed hash pointer h r
unfolding handle_propose_policy
propose_inv hash bump registry pointer author h doc now e =
    let (_, e0, h0) = >>=-ok (require_role registry Role.author author) _ e in
    let (_, e1, h1) = >>=-ok (require (not pointer.pinned) policy_pinned) _ h0 in
    let (d, e2, h2) = >>=-ok (ok_or (hash doc) invalid_policy) _ h1 in
    let (_, e3, h3) = >>=-ok (require (d == h) policy_hash_mismatch) _ h2 in
    let same = require_inv _ _ e3 in
    let named : hash doc ≡ some h = ground arith in
    subst (IsProposed hash pointer h) (ok-inj _ refl h3)
      (record { named = refl; hashed = named; unapproved = refl; waiting = refl; active = refl })

free_inv :
    (o : Option PolicyVersion) {u : Unit {0}}
    → expect {E = GuardError} (is_free o) ≡ ok u
    → o ≡ none
free_inv o h = ground arith

put_same :
    (versions : Hash → Option PolicyVersion) (h : Hash) (v : PolicyVersion)
    → put h v versions h ≡ some v
put_same versions h v = ground arith

⊎_right : {A B : Type 0} → A ⊎ B → (A → ⊥) → B
⊎_right (inl a) no_a = elim (no_a a) [ ]
⊎_right (inr b) no_a = b

IsVetted-of :
    (versions : Hash → Option PolicyVersion) (h : Hash) (v : PolicyVersion) {G : Type 0}
    → versions h ≡ some v
    → (v.approver ≢ v.author) ⊎ G
    → G ⊎ IsVetted versions h
IsVetted-of versions h v found (inl apart) =
    inr (record { version = v; recorded = found; separate = apart })
IsVetted-of versions h v found (inr g) = inl g

module _ (hash : PolicyDoc → Option Hash) (genesis : Hash) where
  propose_keeps :
      (w : World) (bump : ℕ) (author : Pubkey) (h : Hash) (doc : PolicyDoc) (now : ℤ)
      (r : PolicyVersion × PolicyPointer)
      → IsAnchored hash genesis w
      → propose_on hash w bump author h doc now ≡ ok r
      → IsAnchored hash genesis (record w { versions = put h r.0 w.versions; pointer = r.1 })
  unfolding propose_on
  propose_keeps w bump author h doc now r i e =
      let (_, e0, e1) = >>=-ok (expect (is_free (w.versions h))) _ e in
      let p = propose_inv hash bump w.registry w.pointer author h doc now e1 in
      let free : w.versions h ≡ none = free_inv (w.versions h) e0 in
      record {
        governed = i.governed;
        live = i.live;
        pointed = p.active ∙ i.pointed;
        honest = λ k u.
            IsHonest-put hash genesis h k r.0 u w.versions i.honest
              (record { named = p.named; hashed = p.hashed; vetted = inl p.unapproved });
        pending = inl p.waiting;
        in_force =
            in_force_put w.versions genesis h w.pointer.active_hash r.1.active_hash r.0 p.active
              (inl free) i.in_force;
      }

  approve_keeps :
      (w : World) (approver : Pubkey) (h : Hash) (now : ℤ) (r : PolicyVersion × PolicyPointer)
      → IsAnchored hash genesis w
      → approve_on w approver h now ≡ ok r
      → IsAnchored hash genesis (record w { versions = put h r.0 w.versions; pointer = r.1 })
  unfolding approve_on
  approve_keeps w approver h now r i e =
      let (v, e0, e1) = >>=-ok (stored w h) _ e in
      let o = i.honest h v (stored_inv w h e0) in
      let a = approve_lem w.registry w.pointer v approver now r e1 in
      let named : h ≡ w.pointer.pending_hash = sym (a.pending ∙ o.named) in
      let next = approved_as v approver now in
      subst
        (λ (q : PolicyVersion × PolicyPointer).
          IsAnchored hash genesis (record w { versions = put h q.0 w.versions; pointer = q.1 }))
        (sym a.result)
        (record {
          governed = i.governed;
          live = i.live;
          pointed = i.pointed;
          honest = λ k u.
              IsHonest-put hash genesis h k next u w.versions i.honest
                (record { named = o.named; hashed = o.hashed; vetted = inr (inl a.separate) });
          pending = inr (
              subst (IsVetted (put h next w.versions)) named (record {
                version = next;
                recorded = put_same w.versions h next;
                separate = a.separate;
              }));
          in_force =
              in_force_put w.versions genesis h w.pointer.active_hash w.pointer.active_hash next
                refl (inr a.separate) i.in_force;
        })

  repoint_keeps :
      (w : World) (h : Hash) (v : PolicyVersion) (r : GuardConfig × PolicyPointer)
      → IsAnchored hash genesis w
      → IsHonest hash genesis h v
      → (h ≡ genesis) ⊎ IsVetted w.versions h
      → IsRepointed w.config w.pointer v.doc v.policy_hash r.0 r.1
      → IsAnchored hash genesis (record w { config = r.0; pointer = r.1 })
  repoint_keeps w h v r i o t q = record {
    governed = q.governed ∙ i.governed;
    live = ap hash q.live ∙ o.hashed ∙ ap some (sym (q.stamped ∙ o.named));
    pointed = q.active ∙ sym q.stamped;
    honest = i.honest;
    pending = inl q.unapproved;
    in_force = subst (λ k. (k ≡ genesis) ⊎ IsVetted w.versions k) (sym (q.active ∙ o.named)) t;
  }

  activate_keeps :
      (w : World) (activator : Pubkey) (h : Hash) (now : ℤ) (r : GuardConfig × PolicyPointer)
      → IsAnchored hash genesis w
      → activate_on w activator h now ≡ ok r
      → IsAnchored hash genesis (record w { config = r.0; pointer = r.1 })
  unfolding activate_on
  activate_keeps w activator h now r i e =
      let (v, e0, e1) = >>=-ok (stored w h) _ e in
      let o = i.honest h v (stored_inv w h e0) in
      let a = activate_lem w.registry w.pointer v w.config activator now r e1 in
      let approved : IsVetted w.versions w.pointer.pending_hash = ⊎_right i.pending a.approved in
      repoint_keeps w h v r i o (inr (subst (IsVetted w.versions) (a.pending ∙ o.named) approved))
        a.repointed

  rollback_keeps :
      (w : World) (activator : Pubkey) (h : Hash) (r : GuardConfig × PolicyPointer)
      → IsAnchored hash genesis w
      → rollback_on w activator h ≡ ok r
      → IsAnchored hash genesis (record w { config = r.0; pointer = r.1 })
  unfolding rollback_on
  rollback_keeps w activator h r i e =
      let (v, e0, e1) = >>=-ok (stored w h) _ e in
      let found = stored_inv w h e0 in
      let o = i.honest h v found in
      let a = rollback_lem w.registry w.pointer v w.config activator r e1 in
      repoint_keeps w h v r i o (IsVetted-of w.versions h v found (⊎_right o.vetted a.approved))
        a.repointed

  -- The instructions that leave the live policy and the versions alone.
  pin_keeps :
      (w : World) (key : Pubkey) (p : PolicyPointer)
      → IsAnchored hash genesis w
      → handle_pin_policy w.registry w.pointer key ≡ ok p
      → IsAnchored hash genesis (record w { pointer = p })
  unfolding handle_pin_policy
  pin_keeps w key p i e =
      let (_, _, e1) = >>=-ok (require_role w.registry Role.role_admin key) _ e in
      subst (λ q. IsAnchored hash genesis (record w { pointer = q })) (ok-inj _ refl e1)
        (record {
          governed = i.governed;
          live = i.live;
          pointed = i.pointed;
          honest = i.honest;
          pending = i.pending;
          in_force = i.in_force;
        })

  registry_keeps :
      (w : World) (registry : RoleRegistry)
      → IsAnchored hash genesis w
      → IsAnchored hash genesis (record w { registry = registry })
  registry_keeps w registry i = record {
    governed = i.governed;
    live = i.live;
    pointed = i.pointed;
    honest = i.honest;
    pending = i.pending;
    in_force = i.in_force;
  }

  config_keeps :
      (w : World) (c : GuardConfig)
      → IsAnchored hash genesis w
      → IsSamePolicy w.config c
      → IsAnchored hash genesis (record w { config = c })
  config_keeps w c i s = record {
    governed = s.governed ∙ i.governed;
    live = ap hash s.doc ∙ i.live ∙ ap some (sym s.stamp);
    pointed = i.pointed ∙ sym s.stamp;
    honest = i.honest;
    pending = i.pending;
    in_force = i.in_force;
  }

  -- Every instruction keeps the mint anchored.
  pub step_keeps :
      (w : World) (o : Op) → IsAnchored hash genesis w → IsAnchored hash genesis (step hash w o)
  unfolding step
  step_keeps w (propose bump author h doc now) i =
      commit_lem (IsAnchored hash genesis) w _ _ i (λ r. propose_keeps w bump author h doc now r i)
  step_keeps w (approve approver h now) i =
      commit_lem (IsAnchored hash genesis) w _ _ i (λ r. approve_keeps w approver h now r i)
  step_keeps w (activate activator h now) i =
      commit_lem (IsAnchored hash genesis) w _ _ i (λ r. activate_keeps w activator h now r i)
  step_keeps w (rollback activator h) i =
      commit_lem (IsAnchored hash genesis) w _ _ i (λ r. rollback_keeps w activator h r i)
  step_keeps w (pin key) i = commit_lem (IsAnchored hash genesis) w _ _ i (λ p. pin_keeps w key p i)
  step_keeps w (propose_role key role authority now) i =
      commit_lem (IsAnchored hash genesis) w _ _ i (λ r _. registry_keeps w r i)
  step_keeps w (apply_role key now) i =
      commit_lem (IsAnchored hash genesis) w _ _ i (λ r _. registry_keeps w r i)
  step_keeps w (configure key update) i =
      commit_lem (IsAnchored hash genesis) w _ _ i
        (λ c e. config_keeps w c i (configure_keeps w.config c key update i.governed e))
  step_keeps w (set_paused key paused) i =
      commit_lem (IsAnchored hash genesis) w _ _ i
        (λ c e. config_keeps w c i (pause_keeps w.config c key paused e))
  step_keeps w (transfer_authority key new) i =
      commit_lem (IsAnchored hash genesis) w _ _ i
        (λ c e. config_keeps w c i (transfer_keeps w.config c key new e))
  step_keeps w (accept_authority key) i =
      commit_lem (IsAnchored hash genesis) w _ _ i
        (λ c e. config_keeps w c i (accept_keeps w.config c key e))
