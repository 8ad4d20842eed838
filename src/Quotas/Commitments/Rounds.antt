-- ===== src/Quotas/Commitments/Rounds.antt =====
-- What the loop over the commitments has checked and counted, row by row.
use sm_poster.Quotas.Calendar.{Date}
use sm_poster.Prelude.{
  ℕ, suc, ◌+◌, ◌≡◌, refl, ◌⊎◌, inl, inr, String, Bool, true, false, not, ◌&&◌, Option, none, some,
  List, [], ◌∷◌, arith, All, count_if, is_some, Bool-cases, if◌then◌else◌,
}
use sm_poster.Quotas.Envelope.{Result, QuotaError, ◌>>=◌, ◌>>◌, raise_if, ok, err}
use sm_poster.Quotas.Ledger.{Reservation, same_identity}
use sm_poster.Quotas.Lineage.{CommitmentRow, canonical_identity}
use sm_poster.Quotas.Commitments.{
  Tally, count_extra, is_seen, is_skipped, reserved_for, resolve_row, settle_row, tally_row,
  tally_rows,
}

pub bind-ok :
    {A B : Type 0} (m : Result A) (f : A → Result B) (b : B)
    → (m >>= f) ≡ ok b
    → (a : A) × (m ≡ ok a) × (f a ≡ ok b)
bind-ok (ok a) f b h = (a, refl, h)
bind-ok (err e) f b h = absurd (cc)

pub raise-ok :
    {B : Type 0} (c : Bool) (e : QuotaError) (m : Result B) (b : B)
    → (raise_if c e >> m) ≡ ok b
    → (c ≡ false) × (m ≡ ok b)
raise-ok true e m b h = absurd (cc)
raise-ok false e m b h = (refl, h)

pub ok-inj : {A : Type 0} (a b : A) → ok a ≡ ok b → a ≡ b
ok-inj a b h = cc

slot_skipped :
    (skipped reserved : Bool) (m n : ℕ)
    → skipped ≡ true
    → m ≡ n
    → m ≡ n + (if not skipped && not reserved then 1 else 0)
slot_skipped skipped reserved m n h e = ground arith

slot_counts :
    (skipped reserved : Bool) (m n : ℕ)
    → skipped ≡ false
    → m ≡ n + (if not reserved then 1 else 0)
    → m ≡ n + (if not skipped && not reserved then 1 else 0)
slot_counts skipped reserved m n h e = ground arith

-- The row is a commitment without a reservation, so that it takes a slot of its own.
abbrev pub takes_slot : List Reservation → CommitmentRow → Bool
takes_slot ledger row =
    not (is_skipped row (reserved_for row.publication_id ledger))
    && not (is_some (reserved_for row.publication_id ledger))

-- The row agrees with the reservation of its publication, if there is one.
abbrev pub Agrees : Reservation → Option Reservation → Type 0
Agrees canonical none = Unit
Agrees canonical (some r) = same_identity r canonical ≡ true

count_step :
    (b : Bool) (a c d n : ℕ)
    → c ≡ a + (if b then 1 else 0)
    → d ≡ c + n
    → d ≡ a + (if b then suc n else n)
count_step b a c d n h k = ground arith

module _ (normalize : String → String) where
  -- A cancelled publication without a reservation, or one whose lineage names one identity, which is
  -- that of its reservation.
  abbrev pub IsSettled : Date → List Reservation → CommitmentRow → Type 0
  IsSettled first ledger row =
      (is_skipped row (reserved_for row.publication_id ledger) ≡ true)
      ⊎ ((canonical : Reservation) × (canonical_identity normalize row first ≡ ok canonical)
          × Agrees canonical (reserved_for row.publication_id ledger))

  -- What a round of the loop has done.
  record Noted (identity : Reservation) (ledger : List Reservation) (row : CommitmentRow)
      (t next : Tally) : Type 0 where
    fresh : is_seen row.publication_id t.seen ≡ false
    settled : IsSettled identity.month_start ledger row
    monthly : next.extra.monthly ≡ t.extra.monthly + (if takes_slot ledger row then 1 else 0)

  settle_row-Agrees :
      (identity canonical : Reservation) (o : Option Reservation) (t next : Tally)
      → settle_row identity canonical o t ≡ ok next
      → Agrees canonical o
        × (next.extra.monthly ≡ t.extra.monthly + (if not (is_some o) then 1 else 0))
  unfolding count_extra
  settle_row-Agrees identity canonical none t next h = (tt, ground arith)
  settle_row-Agrees identity canonical (some r) t next h =
      elim (Bool-cases (same_identity r canonical)) [
        | inl same ↦ (same, ground arith)
        | inr other ↦ absurd (cc (rw other at h))
      ]

  resolve_row-Noted :
      (identity : Reservation) (ledger : List Reservation) (row : CommitmentRow) (t next : Tally)
      → resolve_row normalize identity ledger row t ≡ ok next
      → (canonical : Reservation) × (canonical_identity normalize row identity.month_start
          ≡ ok canonical)
        × Agrees canonical (reserved_for row.publication_id ledger)
        × (next.extra.monthly
            ≡ t.extra.monthly
              + (if not (is_some (reserved_for row.publication_id ledger)) then 1 else 0))
  resolve_row-Noted identity ledger row t next h =
      let (canonical, found, rest) =
        bind-ok (canonical_identity normalize row identity.month_start) _ next h in
      let (mine, settled) = raise-ok _ _ _ next rest in
      let (agrees, monthly) =
        settle_row-Agrees identity canonical (reserved_for row.publication_id ledger) _ next
          settled in
      (canonical, found, agrees, monthly)

  tally_row-Noted :
      (identity : Reservation) (ledger : List Reservation) (row : CommitmentRow) (t next : Tally)
      → tally_row normalize identity ledger row t ≡ ok next
      → Noted identity ledger row t next
  unfolding tally_row
  tally_row-Noted identity ledger row t next h =
      let (fresh, rest) = raise-ok (is_seen row.publication_id t.seen) _ _ next h in
      elim (Bool-cases (is_skipped row (reserved_for row.publication_id ledger))) [
        | inl skipped ↦ record {
          fresh = fresh;
          settled = inl skipped;
          monthly =
              slot_skipped (is_skipped row (reserved_for row.publication_id ledger))
                (is_some (reserved_for row.publication_id ledger)) next.extra.monthly
                t.extra.monthly skipped
                (let same = ok-inj _ next (rw skipped at rest) in rw (← same) refl);
        }
        | inr counts ↦
            let (canonical, found, agrees, monthly) =
              resolve_row-Noted identity ledger row _ next (rw counts at rest) in
            record {
              fresh = fresh;
              settled = inr (canonical, found, agrees);
              monthly =
                  slot_counts (is_skipped row (reserved_for row.publication_id ledger))
                    (is_some (reserved_for row.publication_id ledger)) next.extra.monthly
                    t.extra.monthly counts monthly;
            }
      ]

  -- All rounds of the loop.
  pub tally_rows-IsSettled :
      (identity : Reservation) (ledger : List Reservation) (rows : List CommitmentRow)
      (t last : Tally)
      → tally_rows normalize identity ledger rows t ≡ ok last
      → All (IsSettled identity.month_start ledger) rows
        × (last.extra.monthly ≡ t.extra.monthly + count_if (takes_slot ledger) rows)
  unfolding tally_rows
  tally_rows-IsSettled identity ledger [] t last h =
      (tt, let same = ok-inj t last h in rw (← same) (omega arith))
  tally_rows-IsSettled identity ledger (row ∷ rows) t last h =
      let (next, step, rest) = bind-ok (tally_row normalize identity ledger row t) _ last h in
      let noted = tally_row-Noted identity ledger row t next step in
      let (settled, monthly) = tally_rows-IsSettled identity ledger rows next last rest in
      (
        (noted.settled, settled),
        count_step (takes_slot ledger row) t.extra.monthly next.extra.monthly last.extra.monthly
            (count_if (takes_slot ledger) rows) noted.monthly monthly,
      )
