-- ===== src/Argus/Governance/Integrity.antt =====
-- The accounts of a governed mint under sequences of the instructions of governance
-- (programs/argus/src/instructions/governance.rs) and of the guard authority (admin.rs), and the
-- invariant of such sequences.
pub mod Steps
pub mod Guard
pub mod Runs
use mathlib.Core.Path.{subst, subst₂}
use vesta_core.Base.{
  ℕ, ◌≡◌, ◌≢◌, refl, sym, ap, ◌∙◌, ◌⊎◌, inl, inr, Bool, true, false, not, Option, none, some, List,
  [], ◌∷◌, ℤ, pos, ◌==◌, if◌then◌else◌, arith, Result, ok, err, constraint, panic, ◌>>=◌, require,
  expect, ok_or, ◌>>◌, >>=-ok, Bool-cases, eqb_ℤ,
}
use vesta_core.Argus.Error.{
  GuardError, policy_pinned, invalid_policy, policy_hash_mismatch, unauthorized, role_unauthorized,
}
use vesta_core.Argus.State.{Pubkey, Hash, no_hash, GuardConfig}
use vesta_core.Argus.Policy.{
  PolicyDoc, as_policy_doc, PolicyUpdate, require_guard_authority, handle_configure_policy,
  handle_set_guard_paused, handle_transfer_guard_authority, handle_accept_guard_authority,
}
use vesta_core.Argus.Roles.{Role, RoleRegistry, require_role}
use vesta_core.Argus.Governance.{
  PolicyVersion, PolicyPointer, RoleAssignment, Bumps, Adopted, handle_initialize_governance,
  handle_propose_policy, handle_approve_policy, handle_activate_policy, handle_rollback_policy,
  handle_pin_policy, handle_propose_role_change, handle_apply_role_change,
}
use vesta_core.Argus.Governance.Lifecycle.{
  IsRepointed, IsActivated, activate_lem, IsApproved, approve_lem, approved_as,
}
use vesta_core.Argus.Governance.Rollback.{IsRolledBack, rollback_lem}

-- The accounts of one governed mint; a version's account stands at the address of its hash.
pub record World : Type 0 where
  pub config : GuardConfig
  pub registry : RoleRegistry
  pub pointer : PolicyPointer
  pub versions : Hash → Option PolicyVersion

abbrev pub put : Hash → PolicyVersion → (Hash → Option PolicyVersion) → Hash → Option PolicyVersion
put h v versions h' = if h == h' then some v else versions h'

-- An instruction with its signer, its arguments, the version that it names and the clock.
pub data Op : Type 0 where
  propose : ℕ → Pubkey → Hash → PolicyDoc → ℤ → Op
  approve : Pubkey → Hash → ℤ → Op
  activate : Pubkey → Hash → ℤ → Op
  rollback : Pubkey → Hash → Op
  pin : Pubkey → Op
  propose_role : Pubkey → ℕ → Pubkey → ℤ → Op
  apply_role : Pubkey → ℤ → Op
  configure : Pubkey → PolicyUpdate → Op
  set_paused : Pubkey → Bool → Op
  transfer_authority : Pubkey → Pubkey → Op
  accept_authority : Pubkey → Op

-- A refused instruction leaves the accounts as they were.
pub commit : {A : Type 0} → World → Result GuardError A → (A → World) → World
commit w (ok a) next = next a
commit w (err _) next = w
commit w constraint next = w
commit w panic next = w

-- The account of the version that an instruction names.
pub stored : World → Hash → Result GuardError PolicyVersion
stored w h = elim (w.versions h) [ none ↦ constraint | some v ↦ ok v ]

-- `init` needs a free address.
abbrev is_free : Option PolicyVersion → Bool
is_free none = true
is_free (some v) = false

propose_on :
    (PolicyDoc → Option Hash)
    → World
    → ℕ
    → Pubkey
    → Hash
    → PolicyDoc
    → ℤ
    → Result GuardError (PolicyVersion × PolicyPointer)
propose_on hash w bump author h doc now = do
  expect (is_free (w.versions h))
  handle_propose_policy hash bump w.registry w.pointer author h doc now

approve_on : World → Pubkey → Hash → ℤ → Result GuardError (PolicyVersion × PolicyPointer)
unfolding stored
approve_on w approver h now = do
  v ← stored w h
  handle_approve_policy w.registry w.pointer v approver now

activate_on : World → Pubkey → Hash → ℤ → Result GuardError (GuardConfig × PolicyPointer)
unfolding stored
activate_on w activator h now = do
  v ← stored w h
  handle_activate_policy w.registry w.pointer v w.config activator now

rollback_on : World → Pubkey → Hash → Result GuardError (GuardConfig × PolicyPointer)
unfolding stored
rollback_on w activator h = do
  v ← stored w h
  handle_rollback_policy w.registry w.pointer v w.config activator

pub step : (PolicyDoc → Option Hash) → World → Op → World
unfolding commit propose_on approve_on activate_on rollback_on
step hash w (propose bump author h doc now) =
    commit w (propose_on hash w bump author h doc now)
      (λ r. record w { versions = put h r.0 w.versions; pointer = r.1 })
step hash w (approve approver h now) =
    commit w (approve_on w approver h now)
      (λ r. record w { versions = put h r.0 w.versions; pointer = r.1 })
step hash w (activate activator h now) =
    commit w (activate_on w activator h now) (λ r. record w { config = r.0; pointer = r.1 })
step hash w (rollback activator h) =
    commit w (rollback_on w activator h) (λ r. record w { config = r.0; pointer = r.1 })
step hash w (pin key) =
    commit w (handle_pin_policy w.registry w.pointer key) (λ p. record w { pointer = p })
step hash w (propose_role key role authority now) =
    commit w (handle_propose_role_change w.registry w.pointer key role authority now)
      (λ r. record w { registry = r })
step hash w (apply_role key now) =
    commit w (handle_apply_role_change w.registry key now) (λ r. record w { registry = r })
step hash w (configure key update) =
    commit w (handle_configure_policy w.config key update) (λ c. record w { config = c })
step hash w (set_paused key paused) =
    commit w (handle_set_guard_paused w.config key paused) (λ c. record w { config = c })
step hash w (transfer_authority key new) =
    commit w (handle_transfer_guard_authority w.config key new) (λ c. record w { config = c })
step hash w (accept_authority key) =
    commit w (handle_accept_guard_authority w.config key) (λ c. record w { config = c })

pub run : (PolicyDoc → Option Hash) → World → List Op → World
unfolding step
run hash w [] = w
run hash w (o ∷ os) = run hash (step hash w o) os

-- The version recorded under a hash was approved by someone other than its author.
pub record IsVetted (versions : Hash → Option PolicyVersion) (h : Hash) : Type 0 where
  pub version : PolicyVersion
  pub recorded : versions h ≡ some version
  pub separate : version.approver ≢ version.author

-- A version stands under the hash of its own document, and if it is approved, then by someone other
-- than its author, unless it is the version that adoption recorded.
pub record IsHonest (hash : PolicyDoc → Option Hash) (genesis h : Hash) (v : PolicyVersion)
    : Type 0 where
  pub named : v.policy_hash ≡ h
  pub hashed : hash v.doc ≡ some h
  pub vetted : (v.approved_at ≡ pos 0) ⊎ ((v.approver ≢ v.author) ⊎ (h ≡ genesis))

pub record IsAnchored (hash : PolicyDoc → Option Hash) (genesis : Hash) (w : World) : Type 0 where
  pub governed : w.config.governed ≡ true
  pub live : hash (as_policy_doc w.config) ≡ some w.config.active_policy_hash
  pub pointed : w.pointer.active_hash ≡ w.config.active_policy_hash
  pub honest : (h : Hash) (v : PolicyVersion) → w.versions h ≡ some v → IsHonest hash genesis h v
  pub pending : (w.pointer.pending_approved_at ≡ pos 0) ⊎ IsVetted w.versions w.pointer.pending_hash
  pub in_force : (w.pointer.active_hash ≡ genesis) ⊎ IsVetted w.versions w.pointer.active_hash

pub commit_lem :
    {A : Type 0} (P : World → Type 0) (w : World) (r : Result GuardError A) (next : A → World)
    → P w
    → ((a : A) → r ≡ ok a → P (next a))
    → P (commit w r next)
unfolding commit
commit_lem P w (ok a) next p f = f a refl
commit_lem P w (err _) next p f = p
commit_lem P w constraint next p f = p
commit_lem P w panic next p f = p

pub stored_inv :
    (w : World) (h : Hash) {v : PolicyVersion} → stored w h ≡ ok v → w.versions h ≡ some v
unfolding stored
stored_inv w h e = ground arith

-- A version that is written leaves every vetted one vetted: its address was free, or it is vetted.
pub IsVetted-put :
    (versions : Hash → Option PolicyVersion) (h k : Hash) (v : PolicyVersion)
    → (versions h ≡ none) ⊎ (v.approver ≢ v.author)
    → IsVetted versions k
    → IsVetted (put h v versions) k
IsVetted-put versions h k v fresh t = elim (Bool-cases (h == k)) [
  | inl same ↦ elim fresh [
    | inl free ↦ ground (arith, t.recorded)
    | inr apart ↦ record { version = v; recorded = rw (same) refl; separate = apart }
  ]
  | inr other ↦ record {
    version = t.version;
    recorded = rw (other) t.recorded;
    separate = t.separate;
  }
]

-- So the policy in force stays vetted, while the pointer stays on it.
pub in_force_put :
    (versions : Hash → Option PolicyVersion) (genesis h k k' : Hash) (v : PolicyVersion)
    → k' ≡ k
    → (versions h ≡ none) ⊎ (v.approver ≢ v.author)
    → (k ≡ genesis) ⊎ IsVetted versions k
    → (k' ≡ genesis) ⊎ IsVetted (put h v versions) k'
in_force_put versions genesis h k k' v same fresh (inl g) = inl (same ∙ g)
in_force_put versions genesis h k k' v same fresh (inr t) =
    inr (subst (IsVetted (put h v versions)) (sym same) (IsVetted-put versions h k v fresh t))

pub IsHonest-put :
    (hash : PolicyDoc → Option Hash) (genesis h k : Hash) (v u : PolicyVersion)
    (versions : Hash → Option PolicyVersion)
    → ((h' : Hash) (v' : PolicyVersion) → versions h' ≡ some v' → IsHonest hash genesis h' v')
    → IsHonest hash genesis h v
    → put h v versions k ≡ some u
    → IsHonest hash genesis k u
IsHonest-put hash genesis h k v u versions all one e = elim (Bool-cases (h == k)) [
  | inl same ↦ subst₂ (IsHonest hash genesis) (ground arith) (ground arith) one
  | inr other ↦ all k u (ground arith)
]
