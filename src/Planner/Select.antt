-- ===== src/Planner/Select.antt =====
-- `_select_active` and `_select_reserve`: candidates are taken one by one, the best first, while the
-- caps allow one.
pub mod Members
pub mod Caps
pub mod Relaxation
pub mod Reserve
use sm_poster.Prelude.{
  ℕ, zero, suc, Bool, true, false, not, ◌&&◌, ◌||◌, Option, none, some, List, [], ◌∷◌, ◌++◌, ltb,
  leb, length, keep, if◌then◌else◌,
}
use sm_poster.Planner.Candidates.{
  Candidate, Counters, count_candidate, candidate_rank, best, remove,
}

pub data Stage : Type 0 where
  strict relaxed reserve : Stage

pub record SelectedCandidate : Type 0 where
  pub candidate : Candidate
  pub selection_stage : Stage
  pub relaxed_vendor_cap : Bool
  pub relaxed_board_cap : Bool

pub record Limits : Type 0 where
  pub product_cap : ℕ
  pub vendor_limit : ℕ
  pub board_limit : ℕ

-- The variables of the loops.
pub record Selection : Type 0 where
  pub selected : List SelectedCandidate
  pub remaining : List Candidate
  pub counters : Counters
  pub relaxed_vendor : Bool
  pub relaxed_board : Bool

abbrev pub start : List Candidate → Counters → Selection
start candidates counters = record {
  selected = [];
  remaining = candidates;
  counters = counters;
  relaxed_vendor = false;
  relaxed_board = false;
}

unfoldable pub product_full : Limits → Counters → Candidate → Bool
product_full l n c = leb l.product_cap (n.product c.product_id)

unfoldable pub vendor_over : Limits → Counters → Candidate → Bool
vendor_over l n c = leb l.vendor_limit (n.vendor c.vendor_key)

unfoldable pub board_over : Limits → Counters → Candidate → Bool
board_over l n c = leb l.board_limit (n.board c.local_board_id)

-- Whether `choose` makes the candidate available.
unfoldable pub available : Bool → Limits → Counters → Candidate → Bool
available relax l n c =
    not (product_full l n c) && (relax || not (vendor_over l n c || board_over l n c))

unfoldable pub take_candidate : Bool → Limits → Candidate → Selection → Selection
take_candidate relax l c s = record {
  selected =
      s.selected
      ++ record {
        candidate = c;
        selection_stage = if relax then relaxed else strict;
        relaxed_vendor_cap = relax && vendor_over l s.counters c;
        relaxed_board_cap = relax && board_over l s.counters c;
      }
        ∷ [];
  remaining = remove c s.remaining;
  counters = count_candidate c s.counters;
  relaxed_vendor =
      if relax then s.relaxed_vendor || vendor_over l s.counters c else s.relaxed_vendor;
  relaxed_board = if relax then s.relaxed_board || board_over l s.counters c else s.relaxed_board;
}

abbrev taken : Bool → Limits → Selection → Option Candidate → Option Selection
taken relax l s none = none
taken relax l s (some c) = some (take_candidate relax l c s)

-- `choose`; `none` is `False`.
unfoldable pub choose : Bool → Limits → Selection → Option Selection
unfolding take_candidate
choose relax l s =
    taken relax l s
      (best (candidate_rank s.counters) (keep (available relax l s.counters) s.remaining))

-- What `choose` decides: to go on with what it took, or to stop.
abbrev pub go_on : (Selection → Selection) → Selection → Option Selection → Selection
go_on rest s none = s
go_on rest s (some next) = rest next

-- `while len(selected) < needed and choose(relax): pass`, for at most `fuel` rounds.
unfoldable pub fill : ℕ → Bool → Limits → ℕ → Selection → Selection
fill zero relax l needed s = s
fill (suc fuel) relax l needed s =
    let more = go_on (fill fuel relax l needed) s (choose relax l s) in
    if ltb (length s.selected) needed then more else s

-- Each round takes a candidate, so that one round more than there are candidates is enough.
unfoldable pub fill_all : Bool → Limits → ℕ → Selection → Selection
unfolding fill
fill_all relax l needed s = fill (suc (length s.remaining)) relax l needed s

unfoldable pub select_active : List Candidate → ℕ → Limits → Counters → Selection
select_active candidates needed l counters =
    fill_all true l needed (fill_all false l needed (start candidates counters))

unfoldable pub take_reserve : Candidate → Selection → Selection
take_reserve c s = record s {
  selected =
      s.selected
      ++ record {
        candidate = c;
        selection_stage = reserve;
        relaxed_vendor_cap = false;
        relaxed_board_cap = false;
      }
        ∷ [];
  remaining = remove c s.remaining;
  counters = count_candidate c s.counters;
}

abbrev reserved : Selection → Option Candidate → Option Selection
reserved s none = none
reserved s (some c) = some (take_reserve c s)

unfoldable pub choose_reserve : Limits → Selection → Option Selection
unfolding take_reserve
choose_reserve l s =
    reserved s
      (best (candidate_rank s.counters) (keep (λ c. not (product_full l s.counters c)) s.remaining))

unfoldable pub fill_reserve : ℕ → Limits → ℕ → Selection → Selection
fill_reserve zero l needed s = s
fill_reserve (suc fuel) l needed s =
    let more = go_on (fill_reserve fuel l needed) s (choose_reserve l s) in
    if ltb (length s.selected) needed then more else s

unfoldable pub select_reserve : List Candidate → ℕ → Limits → Counters → Selection
unfolding fill_reserve
select_reserve candidates needed l counters =
    fill_reserve (suc (length candidates)) l needed (start candidates counters)
