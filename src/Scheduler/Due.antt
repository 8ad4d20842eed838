-- ===== src/Scheduler/Due.antt =====
-- `due_publications` of publication_scheduler.py: the ordered query and the loop over its pages.
pub mod Pages
pub mod Batch
use sm_poster.Prelude.{
  min, ℕ, zero, suc, ◌+◌, Bool, true, false, not, ◌||◌, ◌&&◌, Option, none, some, List, [], ◌∷◌,
  ◌++◌, ltb, leb, ◌==◌, if◌then◌else◌, length, take, drop, keep,
}
use sm_poster.Prelude.Table.{rows}
use sm_poster.Domain.{Db, Publication}
use sm_poster.Domain.Time.{Datetime, utc_instant}
use sm_poster.CanaryMedia.{MediaStore, publication_has_pending_local_canary_media}
use sm_poster.Scheduler.{is_claimable}

abbrev pub max_dispatch_batch : ℕ
max_dispatch_batch = 25

-- The time by which a row is ordered; only rows with a time are selected.
abbrev pub due_instant : Publication → ℕ
due_instant p = elim p.scheduled_for [ none ↦ 0 | some when ↦ utc_instant when ]

-- `order_by(scheduled_for, id)`: whether `p` may stand before `q`.
unfoldable pub in_order : Publication → Publication → Bool
in_order p q =
    ltb (due_instant p) (due_instant q) || (due_instant p == due_instant q && leb p.id q.id)

unfoldable pub insert_ordered : Publication → List Publication → List Publication
insert_ordered p [] = p ∷ []
insert_ordered p (q ∷ rest) =
    let later = insert_ordered p rest in if in_order p q then p ∷ q ∷ rest else q ∷ later

unfoldable pub order_rows : List Publication → List Publication
unfolding insert_ordered
order_rows [] = []
order_rows (p ∷ rest) = insert_ordered p (order_rows rest)

-- The rows of the query, in order.
unfoldable pub due_query : Datetime → Db → List Publication
due_query now db = order_rows (keep (is_claimable now db) (rows db.publications))

-- The inner loop: `eligible` grows by each row that is not pending, up to `target`.
unfoldable pub collect {ℓ} : {A : Type ℓ} → (A → Bool) → ℕ → List A → List A → List A
collect pending target eligible [] = eligible
collect pending target eligible (p ∷ rest) =
    let skipped = collect pending target eligible rest in
    let grown = eligible ++ p ∷ [] in
    let more = collect pending target grown rest in
    if pending p then skipped else if leb target (length grown) then grown else more

-- The outer loop. `query.limit(target).offset(offset)` is a page of `found`; `none` means that the
-- fuel ran out.
unfoldable pub pages {ℓ} : {A : Type ℓ} → ℕ → (A → Bool) → ℕ → List A → ℕ → List A → Option (List A)
pages zero pending target found offset eligible = none
pages (suc fuel) pending target found offset eligible =
    let candidates = take target (drop offset found) in
    let next =
      pages fuel pending target found (offset + length candidates)
        (collect pending target eligible candidates) in
    if ltb (length eligible) target
    then (if length candidates == 0 then some eligible else next)
    else some eligible

pub data DueResult : Type 0 where
  limit_out_of_range out_of_fuel : DueResult
  eligible : List Publication → DueResult

abbrev finished : Option (List Publication) → DueResult
finished none = DueResult.out_of_fuel
finished (some found) = DueResult.eligible found

-- One page more than there are rows is enough fuel.
unfoldable pub due_publications : MediaStore → Db → Datetime → ℕ → DueResult
due_publications media db now limit =
    if ltb limit 1 || ltb max_dispatch_batch limit
    then DueResult.limit_out_of_range
    else let found = due_query now db in
      finished (
        pages (suc (length found)) (publication_has_pending_local_canary_media media db)
          (min limit max_dispatch_batch) found 0 [])
