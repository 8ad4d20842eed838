-- ===== src/Bounded/Keeping.antt =====
-- The invariant of a batch, and what each operation keeps.
use sm_poster.Prelude.{
  ℕ, ◌≤◌, ◌<◌, ◌≡◌, refl, sym, subst, ◌∙◌, ◌⊎◌, inl, inr, Bool, true, false, ◌||◌, some, List,
  arith, ◌==◌, Bool-cases, count_if, length, map,
}
use sm_poster.Bounded.{
  Batch, BatchState, Entry, Identity, State, close_as, is_preparing, is_ready, is_reserved,
  is_running, is_terminal,
}
use sm_poster.Bounded.Manifest.{identities}

abbrev pub is_admitting : BatchState → Bool
is_admitting state = is_ready state || is_running state

abbrev pub has_slot : ℕ → Identity → Bool
has_slot k i = i.slot == k

module _ (hash : List Identity → ℕ) where
  -- A batch with the identities of its entries and the number of those that are reserved.
  pub record SoundAs (b : Batch) (ids : List Identity) (reserved : ℕ) : Type 0 where
    pub counted : reserved ≡ b.attempts_reserved
    pub bounded : b.attempts_reserved ≤ 5
    pub exhausted : (b.attempts_reserved < 5) ⊎ (b.admission_closed ≡ true)
    pub shut : (is_admitting b.state ≡ true) ⊎ (b.admission_closed ≡ true)
    pub unstarted : (is_preparing b.state ≡ false) ⊎ (b.attempts_reserved ≡ 0)
    pub sealed :
        (is_admitting b.state ≡ false) ⊎ ((length ids ≡ 5) × (b.manifest ≡ some (hash ids)))
    pub keys : (k : ℕ) → count_if (has_slot k) ids ≤ 1

  abbrev pub Sound : State → Type 0
  Sound s = SoundAs s.batch (identities s.entries) (count_if is_reserved s.entries)

  -- What a step from a sound state leaves.
  pub record Kept (s next : State) : Type 0 where
    pub sound : Sound next
    pub same : identities next.entries ≡ identities s.entries
    pub more : s.batch.attempts_reserved ≤ next.batch.attempts_reserved
    pub final : (is_terminal s.batch.state ≡ false) ⊎ (is_terminal next.batch.state ≡ true)

  abbrev pub Keeps : State → State → Type 0
  Keeps s next = Sound s → Kept s next

  pub same-Keeps : (s : State) → Keeps s s
  same-Keeps s sound = record {
    sound = sound;
    same = refl;
    more = omega arith;
    final = elim (Bool-cases (is_terminal s.batch.state)) [ inl t ↦ inr t | inr f ↦ inl f ];
  }

  final_trans :
      (a b c : Bool)
      → (a ≡ false) ⊎ (b ≡ true)
      → (b ≡ false) ⊎ (c ≡ true)
      → (a ≡ false) ⊎ (c ≡ true)
  final_trans a b c h k = ground arith

  pub then-Keeps : (s t u : State) → Keeps s t → Keeps t u → Keeps s u
  then-Keeps s t u f g sound =
      let h = f sound in
      let k = g h.sound in
      record {
        sound = k.sound;
        same = k.same ∙ h.same;
        more = omega (arith, h.more, k.more);
        final =
            final_trans (is_terminal s.batch.state) (is_terminal t.batch.state)
              (is_terminal u.batch.state) h.final k.final;
      }

  -- A change of rows that keeps the entries' identities and reservations, and the batch.
  pub entries-Keeps :
      (s : State) (f : Entry → Entry)
      → ((es : List Entry) → identities (map f es) ≡ identities es)
      → ((es : List Entry) → count_if is_reserved (map f es) ≡ count_if is_reserved es)
      → Keeps s (record s { entries = map f s.entries })
  entries-Keeps s f same count sound = record {
    sound =
        subst (λ ids. SoundAs s.batch ids (count_if is_reserved (map f s.entries)))
          (sym (same s.entries))
          (subst (λ n. SoundAs s.batch (identities s.entries) n) (sym (count s.entries)) sound);
    same = same s.entries;
    more = omega arith;
    final = elim (Bool-cases (is_terminal s.batch.state)) [ inl t ↦ inr t | inr f ↦ inl f ];
  }

  shut_states :
      (state : BatchState)
      → is_terminal state ≡ true
      → (is_admitting state ≡ false) × (is_preparing state ≡ false)
  shut_states BatchState.paused h = (refl, refl)
  shut_states BatchState.failed h = (refl, refl)
  shut_states BatchState.completed h = (refl, refl)
  shut_states BatchState.opened h = absurd (cc)
  shut_states BatchState.preparing h = absurd (cc)
  shut_states BatchState.ready h = absurd (cc)
  shut_states BatchState.running h = absurd (cc)

  pub close_as-Keeps :
      (now : ℕ) (state : BatchState) (reason : _) (s : State)
      → is_terminal state ≡ true
      → Keeps s (close_as now state reason s)
  unfolding close_as
  close_as-Keeps now state reason s t sound =
      let (idle, begun) = shut_states state t in
      record {
        sound = record {
          counted = sound.counted;
          bounded = sound.bounded;
          exhausted = inr refl;
          shut = inr refl;
          unstarted = inl begun;
          sealed = inl idle;
          keys = sound.keys;
        };
        same = refl;
        more = omega arith;
        final = inr t;
      }
