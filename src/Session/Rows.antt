-- ===== src/Session/Rows.antt =====
-- The two tables that the publishing services write, read and written through a session.
use sm_poster.Prelude.{ℕ}
use sm_poster.Prelude.Table.{get, update}
use sm_poster.Domain.{Publication, Attempt}
use sm_poster.Session.Core.{Action, gets, or_deleted, modify, ◌>>=◌}

-- The attributes of a publication, or of an attempt, that the session holds.
unfoldable pub read_publication : {E : Type 0} → ℕ → Action E Publication
read_publication id = do row ← gets (λ db. get id db.publications); or_deleted row

unfoldable pub read_attempt : {E : Type 0} → ℕ → Action E Attempt
read_attempt id = do row ← gets (λ db. get id db.attempts); or_deleted row

-- An assignment to their columns.
unfoldable pub set_publication :
    {E : Type 0} → ℕ → (Publication → Publication) → Action E (Unit {0})
set_publication id f = modify (λ db. record db { publications = update id f db.publications })

unfoldable pub set_attempt : {E : Type 0} → ℕ → (Attempt → Attempt) → Action E (Unit {0})
set_attempt id f = modify (λ db. record db { attempts = update id f db.attempts })
