-- ===== src/Bounded/Admitting.antt =====
-- What a reservation rests on.
use sm_poster.Prelude.{
  ℕ, suc, ◌+◌, ◌==◌, ◌<◌, ◌≡◌, count_if, refl, Bool, true, false, Option, none, some, List, any,
  first, if◌then◌else◌,
}
use sm_poster.Permits.{PermitStatus}
use sm_poster.Scheduler.{Env}
use sm_poster.Bounded.{
  Answer, BatchError, BatchSettings, Entry, Identity, State, done, is_reserved, is_running, raised,
  require_gate,
}
use sm_poster.Bounded.Manifest.{
  Parts, lineage_holds, permit_holds, seen, unsettled, parts_of, identities,
}
use sm_poster.Bounded.Checks.{is_live_control, lost_by, names, on_gate}

-- A guard that raises has not fired.
pub passed :
    {A : Type 0} (b : Bool) (e : BatchError) (t : State) (rest : Answer A × State) (a : A)
    (s : State)
    → (if b then (raised e, t) else rest) ≡ (done a, s)
    → (b ≡ false) × (rest ≡ (done a, s))
passed true e t rest a s h = absurd (cc)
passed false e t rest a s h = (refl, h)

pub gate_passed :
    {A : Type 0} (gate : Option BatchError) (t : State) (act : Answer A × State) (a : A) (s : State)
    → on_gate gate t act ≡ (done a, s)
    → (gate ≡ none) × (act ≡ (done a, s))
gate_passed none t act a s h = (refl, h)
gate_passed (some e) t act a s h = absurd (cc)

-- An entry whose rows `validate_identity` accepts for an active permit.
pub record IsDispatchable (env : Env) (s : State) (row : Entry) : Type 0 where
  pub parts : Parts
  pub found : parts_of s row.identity ≡ some parts
  pub lineage : lineage_holds env row.identity parts ≡ true
  pub permit : permit_holds row.identity PermitStatus.active parts ≡ true

-- What a reservation of `row` writes, from `s` to `next`.
pub record ReservesOne (publication_id permit_id now : ℕ) (row : Entry) (s next : State)
    : Type 0 where
  pub one_more : count_if is_reserved next.entries ≡ suc (count_if is_reserved s.entries)
  pub reserved_entry :
      first (names publication_id permit_id) next.entries
      ≡ some (record row { reserved_at = some now })
  pub same_identities : identities next.entries ≡ identities s.entries
  pub counted : next.batch.attempts_reserved ≡ suc s.batch.attempts_reserved
  pub closes : next.batch.admission_closed ≡ (s.batch.attempts_reserved == 4)
  pub leased : next.batch.lease_until ≡ some (now + 120)
  pub same_state : next.batch.state ≡ s.batch.state
  pub same_manifest : next.batch.manifest ≡ s.batch.manifest
  pub same_owner : next.batch.owner ≡ s.batch.owner
  pub same_reason : next.batch.reason ≡ s.batch.reason
  pub same_permits : next.permits ≡ s.permits
  pub same_rows : next.rows ≡ s.rows

module _ (hash : List Identity → ℕ) where
  -- What a reservation rests on and writes.
  pub record Reserves (env : Env) (settings : BatchSettings)
      (owner publication_id permit_id now : ℕ) (s next : State) : Type 0 where
    pub gate : require_gate settings ≡ none
    pub runs : is_running s.batch.state ≡ true
    pub unclosed : s.batch.admission_closed ≡ false
    pub left : s.batch.attempts_reserved < 5
    pub live : is_live_control s.control ≡ true
    pub owns : lost_by now owner s.batch ≡ false
    pub settled : any unsettled (seen s).entries ≡ false
    pub row : Entry
    pub named : first (names publication_id permit_id) (seen s).entries ≡ some row
    pub free : is_reserved row ≡ false
    pub dispatchable : IsDispatchable env (seen s) row
    pub writes : ReservesOne publication_id permit_id now row s next
