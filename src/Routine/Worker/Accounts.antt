-- ===== src/Routine/Worker/Accounts.antt =====
-- What one candidate adds to the counters of a run, and when it may be dispatched.
use sm_poster.Prelude.{
  ℕ, suc, ◌+◌, ◌≤◌, ◌≡◌, refl, ◌⊎◌, inl, inr, Bool, true, false, not, ◌&&◌, Option, some, arith,
  leb, Bool-cases,
}
use sm_poster.Domain.{PublicationStatus}
use sm_poster.Routine.Worker.{
  Attempt, Check, Counters, Mode, Next, Visit, WorkerCode, after_attempt, after_offline,
  after_preflight, broke, crashed, dry_mode, failed_with, go, is_valid, live_mode, passed,
  permit_code, rejected, sent, service_code, settle, skip, stop, unexpected,
  unknown_circuit_breaker, visit_candidate,
}

abbrev pub is_passed : Check → Bool
is_passed passed = true
is_passed _ = false

-- A candidate with a valid permit and a passed preflight, below the limit of the day, in `LIVE`.
abbrev pub may_send : Mode → ℕ → Visit → Bool
may_send dry_mode limit v = false
may_send live_mode limit v = is_valid v.permit && is_passed v.preflight && not (leb limit v.writes)

-- The counters after `n` candidates of which `k` could be sent.
pub record Adds (n : ℕ) (k : ℕ) (c : Counters) : Type 0 where
  pub eligible_visited : c.eligible ≤ n
  pub each_once : c.skipped + c.dispatched ≤ n
  pub only_eligible : c.dispatched ≤ c.eligible
  pub claims : c.claimed ≡ c.dispatched
  pub outcomes : c.published + c.failed + c.unknown ≤ c.dispatched
  pub sendable : c.dispatched ≤ k

-- After the last candidate: an unknown outcome was the only one, and has ended the loop.
pub record Accounted (n : ℕ) (k : ℕ) (c : Counters) : Type 0 where
  pub adds : Adds n k c
  pub breaks : (c.unknown ≡ 0) ⊎ ((c.unknown ≡ 1) × (c.error_code ≡ some unknown_circuit_breaker))

abbrev pub Steps : ℕ → ℕ → ℕ → Next → Type 0
Steps n k scanned (go c) = Adds n k c × (c.unknown ≡ 0) × (c.scanned ≡ scanned)
Steps n k scanned (stop c) = Accounted n k c × (c.scanned ≡ scanned)
Steps n k scanned unexpected = Unit

abbrev pub one_if : Bool → ℕ
one_if true = 1
one_if false = 0

-- The counters of an eligible candidate that is not settled yet.
record Ready (n : ℕ) (k : ℕ) (c : Counters) : Type 0 where
  eligible_visited : c.eligible ≤ suc n
  each_once : c.skipped + c.dispatched ≤ n
  only_eligible : suc c.dispatched ≤ c.eligible
  claims : c.claimed ≡ c.dispatched
  outcomes : c.published + c.failed + c.unknown ≤ c.dispatched
  sendable : c.dispatched ≤ k
  none_unknown : c.unknown ≡ 0

skip-Steps :
    (n k j : ℕ) (code : WorkerCode) (c : Counters)
    → Ready n k c
    → Steps (suc n) (k + j) c.scanned (go (skip code c))
skip-Steps n k j code c a = (
  record {
    eligible_visited = a.eligible_visited;
    each_once = ground (arith, a.each_once);
    only_eligible = ground (arith, a.only_eligible);
    claims = a.claims;
    outcomes = a.outcomes;
    sendable = ground (arith, a.sendable);
  },
  a.none_unknown,
  refl,
)

pass-Steps : (n k j : ℕ) (c : Counters) → Ready n k c → Steps (suc n) (k + j) c.scanned (go c)
pass-Steps n k j c a = (
  record {
    eligible_visited = a.eligible_visited;
    each_once = ground (arith, a.each_once);
    only_eligible = ground (arith, a.only_eligible);
    claims = a.claims;
    outcomes = a.outcomes;
    sendable = ground (arith, a.sendable);
  },
  a.none_unknown,
  refl,
)

-- A dispatch that has returned.
dispatched-Adds :
    (n k : ℕ) (c : Counters) (p f u : ℕ)
    → Ready n k c
    → p + f + u ≤ suc (c.published + c.failed + c.unknown)
    → (code : Option WorkerCode)
    → Adds (suc n) (k + 1) (record c {
      claimed = c.claimed + 1;
      dispatched = c.dispatched + 1;
      published = p;
      failed = f;
      unknown = u;
      error_code = code;
    })
dispatched-Adds n k c p f u a h code = record {
  eligible_visited = a.eligible_visited;
  each_once = ground (arith, a.each_once);
  only_eligible = ground (arith, a.only_eligible);
  claims = ground (arith, a.claims);
  outcomes = ground (arith, a.outcomes, h);
  sendable = ground (arith, a.sendable);
}

sent-Steps :
    (n k : ℕ) (status : PublicationStatus) (c : Counters)
    → Ready n k c
    → Steps (suc n) (k + 1) c.scanned (after_attempt (sent status) c)
unfolding after_attempt settle
sent-Steps n k PublicationStatus.published c a =
    (dispatched-Adds n k c _ _ _ a (omega arith) _, a.none_unknown, refl)
sent-Steps n k PublicationStatus.publish_failed c a =
    (dispatched-Adds n k c _ _ _ a (omega arith) _, a.none_unknown, refl)
sent-Steps n k PublicationStatus.publish_unknown c a = (
  record {
    adds = dispatched-Adds n k c _ _ _ a (omega arith) _;
    breaks = inr (ground (arith, a.none_unknown), refl);
  },
  refl,
)
sent-Steps n k _ c a = (dispatched-Adds n k c _ _ _ a (omega arith) _, a.none_unknown, refl)

attempt-Steps :
    (n k : ℕ) (attempt : Attempt) (c : Counters)
    → Ready n k c
    → Steps (suc n) (k + 1) c.scanned (after_attempt attempt c)
unfolding after_attempt
attempt-Steps n k (sent status) c a = sent-Steps n k status c a
attempt-Steps n k (rejected code) c a = skip-Steps n k 1 (service_code code) c a
attempt-Steps n k broke c a = tt

-- The daily limit, with no dispatch.
limit-Accounted :
    (n k j : ℕ) (code : Option WorkerCode) (c : Counters)
    → Ready n k c
    → Accounted (suc n) (k + j) (record c { error_code = code })
limit-Accounted n k j code c a = record {
  adds = record {
    eligible_visited = a.eligible_visited;
    each_once = ground (arith, a.each_once);
    only_eligible = ground (arith, a.only_eligible);
    claims = a.claims;
    outcomes = a.outcomes;
    sendable = ground (arith, a.sendable);
  };
  breaks = inl a.none_unknown;
}

preflight-Steps :
    (n k limit : ℕ) (v : Visit) (check : Check) (c : Counters)
    → Ready n k c
    → Steps
        (suc n)
        (k + one_if (is_passed check && not (leb limit v.writes)))
        c.scanned
        (after_preflight limit v check c)
unfolding after_preflight
preflight-Steps n k limit v passed c a = elim (Bool-cases (leb limit v.writes)) [
  | inl full ↦ rw full (limit-Accounted n k 0 _ c a, refl)
  | inr below ↦ rw below (attempt-Steps n k v.attempt c a)
]
preflight-Steps n k limit v (failed_with code) c a = skip-Steps n k 0 (service_code code) c a
preflight-Steps n k limit v crashed c a = tt

offline-Steps :
    (n k : ℕ) (check : Check) (c : Counters)
    → Ready n k c
    → Steps (suc n) (k + 0) c.scanned (after_offline check c)
offline-Steps n k passed c a = pass-Steps n k 0 c a
offline-Steps n k (failed_with code) c a = skip-Steps n k 0 (service_code code) c a
offline-Steps n k crashed c a = tt

ready :
    (n k : ℕ) (c : Counters)
    → Adds n k c
    → c.unknown ≡ 0
    → Ready n k (record c { eligible = c.eligible + 1 })
ready n k c a u = record {
  eligible_visited = ground (arith, a.eligible_visited);
  each_once = a.each_once;
  only_eligible = ground (arith, a.only_eligible);
  claims = a.claims;
  outcomes = a.outcomes;
  sendable = a.sendable;
  none_unknown = u;
}

invalid-Steps :
    (n k : ℕ) (code : WorkerCode) (c : Counters)
    → Adds n k c
    → c.unknown ≡ 0
    → Steps (suc n) (k + 0) c.scanned (go (skip code c))
invalid-Steps n k code c a u = (
  record {
    eligible_visited = ground (arith, a.eligible_visited);
    each_once = ground (arith, a.each_once);
    only_eligible = a.only_eligible;
    claims = a.claims;
    outcomes = a.outcomes;
    sendable = ground (arith, a.sendable);
  },
  u,
  refl,
)

pub visit-Steps :
    (n k : ℕ) (mode : Mode) (limit : ℕ) (v : Visit) (c : Counters)
    → Adds n k c
    → c.unknown ≡ 0
    → Steps (suc n) (k + one_if (may_send mode limit v)) c.scanned (visit_candidate mode limit v c)
unfolding visit_candidate
visit-Steps n k dry_mode limit v c a u = elim (Bool-cases (is_valid v.permit)) [
  | inl held ↦ rw held (offline-Steps n k v.offline _ (ready n k c a u))
  | inr void ↦ rw void (invalid-Steps n k (permit_code v.permit) c a u)
]
visit-Steps n k live_mode limit v c a u = elim (Bool-cases (is_valid v.permit)) [
  | inl held ↦ rw held (preflight-Steps n k limit v v.preflight _ (ready n k c a u))
  | inr void ↦ rw void (invalid-Steps n k (permit_code v.permit) c a u)
]
