-- ===== src/Argus/Governance/Integrity/Runs.antt =====
-- Runs of a governed mint: after its adoption, and once it is pinned.
use mathlib.Core.Path.{subst}
use vesta_core.Base.{
  ok-inj, require_inv, >>=-ok, ℕ, ◌≡◌, refl, ◌∙◌, inl, inr, Bool, true, false, not, Option, none,
  some, List, [], ◌∷◌, ℤ, pos, ◌==◌, arith, leb_ℤ, ◌&&◌, Result, ok, require, expect, ok_or,
}
use vesta_core.Argus.Error.{
  GuardError, policy_pinned, invalid_policy, policy_hash_mismatch, unauthorized, role_unauthorized,
  invalid_timelock,
}
use vesta_core.Argus.State.{Pubkey, default_key, Hash, GuardConfig}
use vesta_core.Argus.Policy.{PolicyDoc, as_policy_doc}
use vesta_core.Argus.Roles.{Role, RoleRegistry, require_role}
use vesta_core.Argus.Governance.{
  PolicyVersion, PolicyPointer, RoleAssignment, Bumps, Adopted, handle_initialize_governance,
  max_governance_timelock_secs, handle_propose_policy, handle_pin_policy,
}
use vesta_core.Argus.Governance.Lifecycle.{activate_lem, approve_lem}
use vesta_core.Argus.Governance.Rollback.{rollback_lem}
use vesta_core.Argus.Governance.Integrity.Steps.{step_keeps}
use vesta_core.Argus.Governance.Integrity.Guard.{
  IsSamePolicy, configure_keeps, pause_keeps, transfer_keeps, accept_keeps,
}
use vesta_core.Argus.Governance.Integrity.{
  World, put, Op, propose, approve, activate, rollback, pin, propose_role, apply_role, configure,
  set_paused, transfer_authority, accept_authority, commit, stored, propose_on, approve_on,
  activate_on, rollback_on, step, run, IsAnchored, commit_lem, IsHonest-put, is_free,
}

-- The accounts right after adoption.
abbrev pub adopted_world : Adopted → World
adopted_world a = record {
  config = a.guard_config;
  registry = a.role_registry;
  pointer = a.policy_pointer;
  versions = put a.policy_pointer.active_hash a.genesis_version (λ _. none);
}

adopted-IsAnchored :
    (hash : PolicyDoc → Option Hash) (bumps : Bumps) (config : GuardConfig)
    (authority mint : Pubkey) (genesis : Hash) (roles : RoleAssignment) (timelock now : ℤ)
    (a : Adopted)
    → handle_initialize_governance hash bumps config authority mint genesis roles timelock now
      ≡ ok a
    → IsAnchored hash genesis (adopted_world a)
unfolding handle_initialize_governance as_policy_doc
adopted-IsAnchored hash bumps config authority mint genesis roles timelock now a e =
    let (_, _, e1) = >>=-ok (require (config.authority == authority) unauthorized) _ e in
    let (_, _, e2) = >>=-ok (require (not config.governed) policy_pinned) _ e1 in
    let (_, _, e3) =
      >>=-ok
        (require (leb_ℤ (pos 0) timelock && leb_ℤ timelock (pos max_governance_timelock_secs))
          invalid_timelock)
        _ e2 in
    let (_, _, e4) =
      >>=-ok (require (not (roles.role_admin == default_key)) role_unauthorized) _ e3 in
    let (d, hashed, e5) = >>=-ok (ok_or (hash (as_policy_doc config)) invalid_policy) _ e4 in
    let (_, checked, e6) = >>=-ok (require (d == genesis) policy_hash_mismatch) _ e5 in
    let same = require_inv _ _ checked in
    let named : hash (as_policy_doc config) ≡ some genesis = ground arith in
    subst (λ b. IsAnchored hash genesis (adopted_world b)) (ok-inj _ refl e6)
      (record {
        governed = refl;
        live = named;
        pointed = refl;
        honest = λ h v found.
            IsHonest-put hash genesis genesis h _ v (λ _. none) (λ h' v' none_there. cc)
              (record { named = refl; hashed = named; vetted = inr (inr refl) }) found;
        pending = inl refl;
        in_force = inl refl;
      })

run_keeps :
    (hash : PolicyDoc → Option Hash) (genesis : Hash) (w : World) (os : List Op)
    → IsAnchored hash genesis w
    → IsAnchored hash genesis (run hash w os)
unfolding run
run_keeps hash genesis w [] i = i
run_keeps hash genesis w (o ∷ os) i =
    run_keeps hash genesis (step hash w o) os (step_keeps hash genesis w o i)

-- After adoption, whatever instructions of governance and of the guard's administration are
-- sent, by whomever, in whatever order and at whatever times: the mint stays governed; the hash
-- of its live policy is the one that its guard and its pointer name; and that policy is the
-- adopted one or a recorded version, standing under its own hash, whose approver is not its
-- author.
pub governance_integrity :
    (hash : PolicyDoc → Option Hash) (bumps : Bumps) (config : GuardConfig)
    (authority mint : Pubkey) (genesis : Hash) (roles : RoleAssignment) (timelock now : ℤ)
    (a : Adopted) (os : List Op)
    → handle_initialize_governance hash bumps config authority mint genesis roles timelock now
      ≡ ok a
    → IsAnchored hash genesis (run hash (adopted_world a) os)
governance_integrity hash bumps config authority mint genesis roles timelock now a os e =
    run_keeps hash genesis (adopted_world a) os
      (adopted-IsAnchored hash bumps config authority mint genesis roles timelock now a e)

-- A pinned mint under governance: the policy, its hash and the pin.
record IsFrozenAs (w : World) (doc : PolicyDoc) (stamp : Hash) : Type 0 where
  governed : w.config.governed ≡ true
  pinned : w.pointer.pinned ≡ true
  doc_kept : as_policy_doc w.config ≡ doc
  stamp_kept : w.config.active_policy_hash ≡ stamp

clash : (b : Bool) (P : Type 0) → b ≡ true → b ≡ false → P
clash b P yes_it no_it = cc

propose_unpinned :
    (hash : PolicyDoc → Option Hash) (bump : ℕ) (registry : RoleRegistry) (pointer : PolicyPointer)
    (author : Pubkey) (h : Hash) (doc : PolicyDoc) (now : ℤ) {r : PolicyVersion × PolicyPointer}
    → handle_propose_policy hash bump registry pointer author h doc now ≡ ok r
    → pointer.pinned ≡ false
unfolding handle_propose_policy
propose_unpinned hash bump registry pointer author h doc now e =
    let (_, _, h0) = >>=-ok (require_role registry Role.author author) _ e in
    let (_, e1, _) = >>=-ok (require (not pointer.pinned) policy_pinned) _ h0 in
    let open_now = require_inv _ _ e1 in ground arith

propose_on_unpinned :
    (hash : PolicyDoc → Option Hash) (w : World) (bump : ℕ) (author : Pubkey) (h : Hash)
    (doc : PolicyDoc) (now : ℤ) {r : PolicyVersion × PolicyPointer}
    → propose_on hash w bump author h doc now ≡ ok r
    → w.pointer.pinned ≡ false
unfolding propose_on
propose_on_unpinned hash w bump author h doc now e =
    let (_, _, e1) = >>=-ok (expect (is_free (w.versions h))) _ e in
    propose_unpinned hash bump w.registry w.pointer author h doc now e1

approve_on_unpinned :
    (w : World) (approver : Pubkey) (h : Hash) (now : ℤ) (r : PolicyVersion × PolicyPointer)
    → approve_on w approver h now ≡ ok r
    → w.pointer.pinned ≡ false
unfolding approve_on
approve_on_unpinned w approver h now r e =
    let (v, _, e1) = >>=-ok (stored w h) _ e in
    (approve_lem w.registry w.pointer v approver now r e1).unpinned

activate_on_unpinned :
    (w : World) (activator : Pubkey) (h : Hash) (now : ℤ) (r : GuardConfig × PolicyPointer)
    → activate_on w activator h now ≡ ok r
    → w.pointer.pinned ≡ false
unfolding activate_on
activate_on_unpinned w activator h now r e =
    let (v, _, e1) = >>=-ok (stored w h) _ e in
    (activate_lem w.registry w.pointer v w.config activator now r e1).unpinned

rollback_on_unpinned :
    (w : World) (activator : Pubkey) (h : Hash) (r : GuardConfig × PolicyPointer)
    → rollback_on w activator h ≡ ok r
    → w.pointer.pinned ≡ false
unfolding rollback_on
rollback_on_unpinned w activator h r e =
    let (v, _, e1) = >>=-ok (stored w h) _ e in
    (rollback_lem w.registry w.pointer v w.config activator r e1).unpinned

module _ (hash : PolicyDoc → Option Hash) (doc : PolicyDoc) (stamp : Hash) where
  refused_by_pin :
      {A : Type 0} (w : World) (r : Result GuardError A) (next : A → World)
      → IsFrozenAs w doc stamp
      → ((a : A) → r ≡ ok a → w.pointer.pinned ≡ false)
      → IsFrozenAs (commit w r next) doc stamp
  refused_by_pin w r next f unpinned =
      commit_lem (λ v. IsFrozenAs v doc stamp) w r next f
        (λ a e. clash w.pointer.pinned (IsFrozenAs (next a) doc stamp) f.pinned (unpinned a e))

  same_guard :
      (w : World) (c : GuardConfig)
      → IsFrozenAs w doc stamp
      → IsSamePolicy w.config c
      → IsFrozenAs (record w { config = c }) doc stamp
  same_guard w c f s = record {
    governed = s.governed ∙ f.governed;
    pinned = f.pinned;
    doc_kept = s.doc ∙ f.doc_kept;
    stamp_kept = s.stamp ∙ f.stamp_kept;
  }

  on_config :
      (w : World) (r : Result GuardError GuardConfig)
      → IsFrozenAs w doc stamp
      → ((c : GuardConfig) → r ≡ ok c → IsSamePolicy w.config c)
      → IsFrozenAs (commit w r (λ c. record w { config = c })) doc stamp
  on_config w r f same =
      commit_lem (λ v. IsFrozenAs v doc stamp) w r _ f (λ c e. same_guard w c f (same c e))

  on_registry :
      (w : World) (r : Result GuardError RoleRegistry)
      → IsFrozenAs w doc stamp
      → IsFrozenAs (commit w r (λ q. record w { registry = q })) doc stamp
  on_registry w r f =
      commit_lem (λ v. IsFrozenAs v doc stamp) w r _ f
        (λ q e. record {
          governed = f.governed;
          pinned = f.pinned;
          doc_kept = f.doc_kept;
          stamp_kept = f.stamp_kept;
        })

  on_pin :
      (w : World) (key : Pubkey)
      → IsFrozenAs w doc stamp
      → (p : PolicyPointer) → handle_pin_policy w.registry w.pointer key ≡ ok p
      → IsFrozenAs (record w { pointer = p }) doc stamp
  unfolding handle_pin_policy
  on_pin w key f p e =
      let (_, _, e1) = >>=-ok (require_role w.registry Role.role_admin key) _ e in
      subst (λ q. IsFrozenAs (record w { pointer = q }) doc stamp) (ok-inj _ refl e1)
        (record {
          governed = f.governed;
          pinned = refl;
          doc_kept = f.doc_kept;
          stamp_kept = f.stamp_kept;
        })

  step_pinned : (w : World) (o : Op) → IsFrozenAs w doc stamp → IsFrozenAs (step hash w o) doc stamp
  unfolding step
  step_pinned w (propose bump author h d now) f =
      refused_by_pin w _ _ f (λ r. propose_on_unpinned hash w bump author h d now)
  step_pinned w (approve approver h now) f =
      refused_by_pin w _ _ f (approve_on_unpinned w approver h now)
  step_pinned w (activate activator h now) f =
      refused_by_pin w _ _ f (activate_on_unpinned w activator h now)
  step_pinned w (rollback activator h) f =
      refused_by_pin w _ _ f (rollback_on_unpinned w activator h)
  step_pinned w (pin key) f = commit_lem (λ v. IsFrozenAs v doc stamp) w _ _ f (on_pin w key f)
  step_pinned w (propose_role key role authority now) f = on_registry w _ f
  step_pinned w (apply_role key now) f = on_registry w _ f
  step_pinned w (configure key update) f =
      on_config w _ f (λ c. configure_keeps w.config c key update f.governed)
  step_pinned w (set_paused key paused) f = on_config w _ f (λ c. pause_keeps w.config c key paused)
  step_pinned w (transfer_authority key new) f =
      on_config w _ f (λ c. transfer_keeps w.config c key new)
  step_pinned w (accept_authority key) f = on_config w _ f (λ c. accept_keeps w.config c key)

  run_pinned :
      (w : World) (os : List Op) → IsFrozenAs w doc stamp → IsFrozenAs (run hash w os) doc stamp
  unfolding run
  run_pinned w [] f = f
  run_pinned w (o ∷ os) f = run_pinned (step hash w o) os (step_pinned w o f)

-- Once a governed mint's pointer is pinned, no sequence of instructions of governance and of the
-- guard's administration, by anyone, changes its live policy again, nor the hash that names it,
-- and the pin is never taken off.
pub pin_is_final :
    (hash : PolicyDoc → Option Hash) (w : World) (os : List Op)
    → w.config.governed ≡ true
    → w.pointer.pinned ≡ true
    → ((run hash w os).pointer.pinned ≡ true)
      × (as_policy_doc (run hash w os).config ≡ as_policy_doc w.config)
      × ((run hash w os).config.active_policy_hash ≡ w.config.active_policy_hash)
pin_is_final hash w os governed pinned =
    let f =
      run_pinned hash (as_policy_doc w.config) w.config.active_policy_hash w os
        (record { governed = governed; pinned = pinned; doc_kept = refl; stamp_kept = refl }) in
    (f.pinned, f.doc_kept, f.stamp_kept)
