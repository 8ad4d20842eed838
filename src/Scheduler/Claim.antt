-- ===== src/Scheduler/Claim.antt =====
-- `claim`: at most one dispatcher gets a publication, and each attempt has a number of its own.
use sm_poster.Prelude.{
  ℕ, ◌+◌, ◌<◌, ◌≡◌, refl, ◌≢◌, true, false, none, some, List, [], ◌∷◌, ◌++◌, arith, Option-cases,
  All, inl, inr,
}
use sm_poster.Prelude.Table.{get, rows, get-update}
use sm_poster.Domain.{Db, Publication, Attempt, scheduled, publishing, started}
use sm_poster.Domain.Time.{Datetime}
use sm_poster.CanaryMedia.{publication_has_pending_local_canary_media}
use sm_poster.Session.{World, ok, read_publication, set_publication, commit}
use sm_poster.Scheduler.{
  Env, claim, mark_publishing, is_claimable, is_due_at, new_attempt, last_attempt_number,
  request_fingerprint,
}

-- The attempt is open, and its number is above that of every attempt of its publication.
abbrev pub IsFresh : Attempt → List Attempt → Type 0
IsFresh attempt earlier =
    (attempt.status ≡ started)
    × All
        (λ a. a.publication_id ≡ attempt.publication_id → a.attempt_number < attempt.attempt_number)
        earlier

numbers_below :
    (id m : ℕ) (attempts : List Attempt)
    → last_attempt_number id attempts < m
    → All (λ a. a.publication_id ≡ id → a.attempt_number < m) attempts
unfolding last_attempt_number
numbers_below id m [] h = tt
numbers_below id m (a ∷ attempts) h =
    (λ own. ground arith, numbers_below id m attempts (ground arith))

new_attempt-IsFresh :
    (env : Env) (new_id : ℕ) (p : Publication) (db : Db)
    → IsFresh (new_attempt env new_id p db) (rows db.attempts)
unfolding new_attempt
new_attempt-IsFresh env new_id p db = (
  refl,
  numbers_below p.id (last_attempt_number p.id (rows db.attempts) + 1) (rows db.attempts)
      (omega arith),
)

claimable-due :
    (now : Datetime) (db : Db) (p : Publication)
    → is_claimable now db p ≡ true
    → (p.status ≡ scheduled) × (is_due_at now p.scheduled_for ≡ true)
unfolding is_claimable
claimable-due now db p h = (ground arith, ground arith)

-- What a claim that returned `attempt` has done, between the worlds `w` and `w'`.
pub record Claimed (env : Env) (now : Datetime) (new_id id : ℕ) (w : World) (attempt : Attempt)
    (w' : World) : Type 0 where
  pub before : Publication
  pub found : get id w.working.publications ≡ some before
  pub was_scheduled : before.status ≡ scheduled
  pub was_due : is_due_at now before.scheduled_for ≡ true
  pub media_ready : publication_has_pending_local_canary_media env.media w.working before ≡ false
  pub committed : w'.durable ≡ w'.working
  pub after : Publication
  pub written : get id w'.working.publications ≡ some after
  pub is_publishing : after.status ≡ publishing
  pub is_started : after.attempt_started_at ≡ some now
  pub recorded : w'.working.attempts ≡ w.working.attempts ++ (new_id, attempt) ∷ []
  pub own_attempt : attempt.publication_id ≡ before.id
  pub same_request : attempt.request_fingerprint ≡ some (request_fingerprint env before)
  pub fresh : IsFresh attempt (rows w.working.attempts)

module _ (env : Env) (now : Datetime) (new_id id : ℕ) (w : World) where
  -- A claim that returns an attempt found the publication scheduled, due and with its media in
  -- place; in one commit it set it to `PUBLISHING`, started now, and recorded the attempt: an open
  -- attempt of this publication and of its request, with a number above that of every other attempt
  -- of the publication.
  pub claim-Claimed :
      {attempt : Attempt}
      → (claim env now new_id id w).0 ≡ ok (some attempt)
      → Claimed env now new_id id w attempt (claim env now new_id id w).1
  unfolding claim read_publication set_publication commit new_attempt
  claim-Claimed h = elim (Option-cases (get id w.working.publications)) [
    | inl missing ↦ absurd (ground arith)
    | inr (p, e) ↦ record {
      before = p;
      found = e;
      was_scheduled = (claimable-due now w.working p (ground arith)).0;
      was_due = (claimable-due now w.working p (ground arith)).1;
      media_ready = ground arith;
      committed = ground arith;
      after = mark_publishing now p;
      written = ground (arith, get-update id id (mark_publishing now) w.working.publications);
      is_publishing = refl;
      is_started = refl;
      recorded = ground arith;
      own_attempt = ground arith;
      same_request = ground arith;
      fresh = ground (arith, new_attempt-IsFresh env new_id p w.working);
    }
  ]

-- `claim` is a compare and set: in any world where the publication is not `SCHEDULED`, as after
-- another dispatcher's committed claim, it returns no attempt and changes nothing.
pub claim_refused :
    (env : Env) (now : Datetime) (new_id id : ℕ) (w : World) (p : Publication)
    → get id w.working.publications ≡ some p
    → p.status ≢ scheduled
    → claim env now new_id id w ≡ (ok none, w)
unfolding claim read_publication is_claimable
claim_refused env now new_id id w p e h = ground arith

-- Of two dispatchers, each reading what is committed, only the first can claim a publication.
pub claim_once :
    (env : Env) (now later : Datetime) (new_id other_id id : ℕ) (w second : World)
    {attempt : Attempt}
    → (claim env now new_id id w).0 ≡ ok (some attempt)
    → second.working ≡ (claim env now new_id id w).1.durable
    → claim env later other_id id second ≡ (ok none, second)
claim_once env now later new_id other_id id w second h fresh =
    let c = claim-Claimed env now new_id id w h in
    claim_refused env later other_id id second c.after (rw (fresh, c.committed) c.written)
      (λ e. cc (c.is_publishing, e))
