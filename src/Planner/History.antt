-- ===== src/Planner/History.antt =====
-- `_existing_history`: the month's publications that a plan has to reckon with.
use sm_poster.Prelude.{
  ℕ, ◌+◌, Bool, true, false, ◌&&◌, Option, none, some, List, [], ◌∷◌, keep, length, is_some, leb,
  ltb, ◌==◌,
}
use sm_poster.Prelude.Table.{Table, get}
use sm_poster.Domain.{Publication, PublicationStatus, Draft}
use sm_poster.Domain.Time.{Datetime, utc_instant}
use sm_poster.Planner.Candidates.{Counters, add_one}
use sm_poster.Planner.Pool.{Identity}

-- `PinConcept`
pub record PlanConcept : Type 0 where
  pub store_id : ℕ
  pub product_id : ℕ
  pub board_id : Option ℕ
  pub content_angle_id : ℕ

-- `vendor_keys` has the products, each with the folded text of the first of vendor, title and id
-- that is not empty.
pub record HistoryRows : Type 0 where
  pub publications : List Publication
  pub drafts : Table Draft
  pub concepts : Table PlanConcept
  pub vendor_keys : Table ℕ
  pub boards : Table (Unit {0})
  pub angles : Table (Unit {0})

infixl 5 ◌>>=◌ ◌>>◌
abbrev ◌>>=◌ : {A B : Type 0} → Option A → (A → Option B) → Option B
none >>= f = none
some a >>= f = f a

abbrev ◌>>◌ : {A B : Type 0} → Option A → Option B → Option B
m >> k = m >>= λ _. k

abbrev check : Bool → Option (Unit {0})
check true = some tt
check false = none

abbrev pub is_counted : PublicationStatus → Bool
is_counted PublicationStatus.scheduled = true
is_counted PublicationStatus.publishing = true
is_counted PublicationStatus.published = true
is_counted _ = false

abbrev in_window : ℕ → ℕ → Option Datetime → Bool
in_window start end none = false
in_window start end (some t) = leb start (utc_instant t) && ltb (utc_instant t) end

-- The concept of a publication, if it is one of the store.
unfoldable pub concept_of : HistoryRows → ℕ → Publication → Option PlanConcept
unfolding get
concept_of db store p = do
  draft ← get p.draft_id db.drafts
  concept ← get draft.concept_id db.concepts
  check (concept.store_id == store)
  some concept

-- The query.
unfoldable pub is_commitment : HistoryRows → ℕ → ℕ → ℕ → Publication → Bool
unfolding concept_of
is_commitment db store start end p =
    is_some (concept_of db store p) && in_window start end p.scheduled_for && is_counted p.status

pub record Resolved : Type 0 where
  pub identity : Identity
  pub vendor_key : ℕ

-- What the body of the loop finds for a publication.
unfoldable pub resolve : HistoryRows → ℕ → Publication → Option Resolved
unfolding concept_of get
resolve db store p = do
  concept ← concept_of db store p
  vendor ← get concept.product_id db.vendor_keys
  board ← concept.board_id
  get board db.boards
  get concept.content_angle_id db.angles
  some (record {
    identity = record {
      product = concept.product_id;
      board = board;
      angle = concept.content_angle_id;
    };
    vendor_key = vendor;
  })

pub record History : Type 0 where
  pub publications : List Publication
  pub existing_commitments : ℕ
  pub resolved_commitments : ℕ
  pub counters : Counters
  pub used_identity : List Identity

unfoldable pub count_resolved : Option Resolved → History → History
unfolding add_one
count_resolved none h = h
count_resolved (some r) h = record h {
  resolved_commitments = h.resolved_commitments + 1;
  counters = record {
    product = add_one r.identity.product h.counters.product;
    vendor = add_one r.vendor_key h.counters.vendor;
    board = add_one r.identity.board h.counters.board;
    angle = add_one r.identity.angle h.counters.angle;
  };
  used_identity = r.identity ∷ h.used_identity;
}

unfoldable pub count_history : HistoryRows → ℕ → List Publication → History → History
unfolding count_resolved
count_history db store [] h = h
count_history db store (p ∷ rest) h =
    count_history db store rest (count_resolved (resolve db store p) h)

abbrev pub no_counters : Counters
no_counters = record { product = λ k. 0; vendor = λ k. 0; board = λ k. 0; angle = λ k. 0 }

unfoldable pub existing_history : HistoryRows → ℕ → ℕ → ℕ → History
unfolding is_commitment count_history
existing_history db store start end =
    let publications = keep (is_commitment db store start end) db.publications in
    count_history db store publications (record {
      publications = publications;
      existing_commitments = length publications;
      resolved_commitments = 0;
      counters = no_counters;
      used_identity = [];
    })
