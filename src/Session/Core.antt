-- ===== src/Session/Core.antt =====
-- A SQLAlchemy session as the services use it: what is committed, what this session has changed
-- since, and which of its coming commits the database refuses.
use sm_poster.Prelude.{Bool, true, false, Option, none, some, List, [], ◌∷◌}
use sm_poster.Domain.{Db, PinPayload}

pub record World : Type 0 where
  pub durable : Db
  pub working : Db
  -- for each coming `commit`, whether it raises; after the last, none does
  pub faults : List Bool
  -- the requests that have gone to the provider, the last first
  pub sent : List PinPayload

-- What is raised outside the service that runs: the database refuses a commit, or a row that the
-- session holds is gone (`ObjectDeletedError`).
pub data Fault : Type 0 where
  database_error object_deleted : Fault

-- `E` is what the service itself raises.
pub data Result (E A : Type 0) : Type 0 where
  ok : A → Result E A
  raised : E → Result E A
  fault : Fault → Result E A

abbrev pub Action : Type 0 → Type 0 → Type 0
Action E A = World → Result E A × World

module _ {E A : Type 0} where
  abbrev pub pure : A → Action E A
  pure a w = (ok a, w)

  abbrev pub raise : E → Action E A
  raise e w = (raised e, w)

  abbrev pub gets : (Db → A) → Action E A
  gets f w = (ok (f w.working), w)

  abbrev pub or_deleted : Option A → Action E A
  or_deleted none w = (fault object_deleted, w)
  or_deleted (some a) w = (ok a, w)

module _ {E A B : Type 0} where
  abbrev pub continue : Result E A → (A → Action E B) → Action E B
  continue (ok a) f w = f a w
  continue (raised e) f w = (raised e, w)
  continue (fault x) f w = (fault x, w)

  infixl 5 ◌>>=◌ ◌>>◌
  abbrev pub ◌>>=◌ : Action E A → (A → Action E B) → Action E B
  ◌>>=◌ m f w = let (r, w') = m w in continue r f w'

  abbrev pub ◌>>◌ : Action E A → Action E B → Action E B
  m >> k = m >>= λ _. k

-- `if test: raise e`
abbrev pub raise_if : {E : Type 0} → Bool → E → Action E (Unit {0})
raise_if true e w = (raised e, w)
raise_if false e w = (ok tt, w)

-- An assignment to columns of rows that the session holds, or `db.add`.
abbrev pub modify : {E : Type 0} → (Db → Db) → Action E (Unit {0})
modify f w = (ok tt, record w { working = f w.working })

abbrev commit_with : {E : Type 0} → List Bool → Action E (Unit {0})
commit_with [] w = (ok tt, record w { durable = w.working })
commit_with (false ∷ later) w = (ok tt, record w { durable = w.working; faults = later })
commit_with (true ∷ later) w = (fault database_error, record w { faults = later })

-- `db.commit()`
unfoldable pub commit : {E : Type 0} → Action E (Unit {0})
commit w = commit_with w.faults w

-- `db.rollback()`: what the session held is read anew from the database.
abbrev pub rollback : {E : Type 0} → Action E (Unit {0})
rollback w = (ok tt, record w { working = w.durable })

-- `try: m except Exception: handler`
abbrev pub handle : {E A : Type 0} → Result E A → Action E A → Action E A
handle (ok a) h w = (ok a, w)
handle (raised e) h w = h w
handle (fault x) h w = h w

abbrev pub try_except : {E A : Type 0} → Action E A → Action E A → Action E A
try_except m h w = let (r, w') = m w in handle r h w'

-- A POST to the provider, which gives its answer.
abbrev pub send : {E A : Type 0} → (PinPayload → A) → PinPayload → Action E A
send provider payload w = (ok (provider payload), record w { sent = payload ∷ w.sent })
