-- ===== src/Examples/Batching.antt =====
-- A batch of five publications at concrete inputs: its first reservation, and its end.
use sm_poster.Prelude.{ℕ, ◌+◌, ◌≡◌, refl, true, false, none, some, inl, inr, List, [], ◌∷◌, arith}
use sm_poster.Domain.{Publication, PublicationStatus, scheduled}
use sm_poster.Permits.{Permit, PermitStatus, new_permit}
use sm_poster.Routine.Control.{Control, live}
use sm_poster.Scheduler.{request_fingerprint}
use sm_poster.Bounded.{
  BatchSettings, BatchState, Entry, Identity, Rows, State, autonomous_actor, close_as, done,
  require_gate, revoke_unused,
}
use sm_poster.Bounded.Manifest.{
  lineage_holds, observe_entry, observe_locked, observed_outcome, permit_holds, validate_identity,
}
use sm_poster.Bounded.Checks.{bind_attempt, gated, reserved_state}
use sm_poster.Bounded.Service.{
  acquire_batch, observe_batch, reserve_entry, reserve_found, seal_batch,
}
use sm_poster.Bounded.Keeping.{Kept, Sound}
use sm_poster.Bounded.Histories.{Call, run_calls, run_calls-Kept}
use sm_poster.Bounded.Leasing.{acquire_batch_excludes}
use sm_poster.Bounded.Closing.{Stops, observe_batch-IsStopped}
use sm_poster.Examples.Data.{at, env, publication}
use sm_poster.Examples.Permitting.{services}

abbrev hash : List Identity → ℕ
hash ids = 7

abbrev post : PublicationStatus → ℕ → Publication
post status id = publication id status (some (at 5))

abbrev pin_permit : ℕ → Permit
pin_permit id = record (new_permit services id (post scheduled id) (at 5) autonomous_actor 0) {
  id = id;
  publication_id = id;
  dispatch_provider = "buffer";
  approval_id = some 13;
  pinterest_board_record_id = some 16;
  publication_fingerprint = "fingerprint";
  request_fingerprint = request_fingerprint env (post scheduled id);
  authorized_by = autonomous_actor;
  status = PermitStatus.active;
}

abbrev entry : ℕ → Entry
entry slot = record {
  identity = record {
    slot = slot;
    item_id = slot;
    product_id = 30;
    board_id = 16;
    external_board_id = "board";
    item_fingerprint = "item";
    publication_id = some (slot + 1);
    permit_id = some (slot + 1);
    publication_fingerprint = some "fingerprint";
    request_fingerprint = some (request_fingerprint env (post scheduled (slot + 1)));
  };
  reserved_at = none;
  attempt_id = none;
  outcome = none;
}

abbrev rows_of : PublicationStatus → Rows
rows_of status = record {
  item = λ id. some (record {
    product_id = 30;
    local_board_id = 40;
    content_angle_id = 50;
    item_fingerprint = "item";
    publication_id = some (id + 1);
  });
  publication = λ id. some (post status id);
  board = λ id. some (record {
    id = 16;
    connection_id = 15;
    external_board_id = "board";
    is_active = true;
    is_eligible = true;
    last_synced_at = some 3;
  });
  connection = λ id. some (record {
    id = 15;
    granted_scopes = "pins:write" ∷ [];
    status = "CONNECTED";
    boards_last_synced_at = some 3;
  });
  approval = λ id. some (record {
    draft_id = 10;
    creative_id = some 12;
    decision = "APPROVED";
    decided_by = autonomous_actor;
  });
  draft = λ id. some (record { id = 10; concept_id = 60 });
  concept = λ id. some (record { product_id = 30; board_id = some 40; content_angle_id = 50 });
  creative = λ id. some (record {
    id = 12;
    draft_id = 10;
    source_image_id = 14;
    sha256 = none;
    creative_fingerprint = "creative";
    render_status = "RENDERED";
    rendered_url = none;
  });
  has_attempt = λ id. false;
}

abbrev armed : Control
armed = record {
  state = live;
  pause_reason = none;
  paused_at = none;
  paused_by = none;
  last_unknown_publication_id = none;
}

abbrev prepared : State
prepared = record {
  control = armed;
  batch = record {
    attempts_reserved = 0;
    state = BatchState.preparing;
    admission_closed = true;
    manifest = none;
    owner = none;
    lease_until = none;
    reason = none;
  };
  entries = entry 0 ∷ entry 1 ∷ entry 2 ∷ entry 3 ∷ entry 4 ∷ [];
  permits = pin_permit 1 ∷ pin_permit 2 ∷ pin_permit 3 ∷ pin_permit 4 ∷ pin_permit 5 ∷ [];
  rows = rows_of scheduled;
}

abbrev settings : BatchSettings
settings = record {
  is_postgresql = true;
  bounded_batch_enabled = true;
  scheduler_enabled = false;
  scheduled_autonomy_enabled = false;
  board_provisioning_enabled = false;
  board_write_scope_enabled = false;
  autonomous_board_ensure_enabled = false;
  write_scope_enabled = false;
  single_pin_pilot_enabled = false;
  buffer_single_pin_pilot_enabled = false;
  batch_size = 5;
  daily_write_limit = 5;
}

abbrev calls : List Call
calls =
    Call.sealing env settings
    ∷ Call.acquiring settings 120 77 10
    ∷ Call.reserving env settings 77 1 1 11
    ∷ Call.binding 1 99
    ∷ Call.elsewhere armed prepared.permits (rows_of PublicationStatus.publish_unknown)
    ∷ Call.observing 12
    ∷ []

prepared-Sound : Sound hash prepared
prepared-Sound = record {
  counted = refl;
  bounded = omega arith;
  exhausted = inr refl;
  shut = inr refl;
  unstarted = inr refl;
  sealed = inl refl;
  keys = λ k. ground arith;
}

run_calls-Kept_example : Kept hash prepared (run_calls hash calls prepared)
run_calls-Kept_example = run_calls-Kept hash calls prepared prepared-Sound

-- One entry was reserved, and the unknown outcome has paused the batch.
calls_reach :
    ((run_calls hash calls prepared).batch.attempts_reserved ≡ 1)
    × ((run_calls hash calls prepared).batch.state ≡ BatchState.paused)
unfolding run_calls seal_batch gated require_gate validate_identity lineage_holds permit_holds
    request_fingerprint new_permit acquire_batch observe_locked observe_entry observed_outcome
    reserve_entry reserve_found reserved_state bind_attempt observe_batch close_as revoke_unused
calls_reach = (refl, refl)

abbrev ready : State
ready = record prepared {
  batch = record prepared.batch {
    state = BatchState.ready;
    manifest = some 7;
    admission_closed = false;
  };
}

abbrev acquired : State
acquired = record ready {
  batch = record ready.batch {
    state = BatchState.running;
    owner = some 77;
    lease_until = some 130;
  };
}

acquire_batch_excludes_example :
    ¬ acquire_batch hash settings 60 88 100
      (record acquired { control = armed; permits = acquired.permits; rows = rows_of scheduled })
    ≡ (done 88, acquired)
unfolding require_gate gated acquire_batch observe_locked observe_entry
acquire_batch_excludes_example =
    acquire_batch_excludes hash settings settings 120 60 77 88 10 100 88 ready acquired acquired
      armed acquired.permits (rows_of scheduled) refl (omega arith)

-- The first entry was reserved and its publication has failed.
abbrev failing : State
failing = record acquired {
  entries = record (entry 0) { reserved_at = some 11 } ∷ entry 1 ∷ entry 2 ∷ entry 3 ∷ entry 4 ∷ [];
  batch = record acquired.batch { attempts_reserved = 1 };
  rows = rows_of PublicationStatus.publish_failed;
}

failing-Sound : Sound hash failing
failing-Sound = record {
  counted = refl;
  bounded = omega arith;
  exhausted = inl (omega arith);
  shut = inl refl;
  unstarted = inl refl;
  sealed = inr (refl, refl);
  keys = λ k. ground arith;
}

observe_batch-IsStopped_example : Stops (observe_batch hash 12 failing)
unfolding observed_outcome observe_entry
observe_batch-IsStopped_example =
    observe_batch-IsStopped hash 12 failing failing-Sound refl
      (refl, (refl, (refl, (refl, (refl, tt))))) refl
