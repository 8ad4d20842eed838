-- ===== src/Lifecycle.antt =====
-- backend/app/services/publication_state.py: which status changes are allowed.
pub mod Paths
use sm_poster.Prelude.{Bool, true, false, List, [], ◌∷◌, any, if◌then◌else◌}
use sm_poster.Domain.{
  PublicationStatus, approved, scheduled, publishing, published, publish_failed, publish_unknown,
  cancelled, status_eq,
}

-- `ALLOWED_TRANSITIONS`
unfoldable pub allowed_transitions : PublicationStatus → List PublicationStatus
allowed_transitions approved = scheduled ∷ cancelled ∷ []
allowed_transitions scheduled = publishing ∷ cancelled ∷ []
allowed_transitions publishing = published ∷ publish_failed ∷ publish_unknown ∷ []
allowed_transitions publish_failed = scheduled ∷ cancelled ∷ []
allowed_transitions publish_unknown = published ∷ publish_failed ∷ cancelled ∷ []
allowed_transitions published = []
allowed_transitions cancelled = []

unfoldable pub can_transition : PublicationStatus → PublicationStatus → Bool
unfolding allowed_transitions
can_transition current target = any (status_eq target) (allowed_transitions current)

-- `invalid_transition` is the `ValueError`.
pub data Allowed : Type 0 where
  permitted invalid_transition : Allowed

unfoldable pub require_transition : PublicationStatus → PublicationStatus → Allowed
unfolding can_transition
require_transition current target =
    if can_transition current target then Allowed.permitted else Allowed.invalid_transition
