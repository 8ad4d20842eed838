-- ===== src/Examples/Checking.antt =====
-- Duplicate checks and histories at concrete inputs.
use mathlib.Core.List.{Memᴰ}
use sm_poster.Prelude.{◌≡◌, ◌↔◌, refl, true, some, [], ◌∷◌}
use sm_poster.Domain.{scheduled, publishing, published, publish_failed}
use sm_poster.Lifecycle.{can_transition}
use sm_poster.Lifecycle.Paths.{
  here, change, published_through_publishing, unknown_never_retried_blindly,
}
use sm_poster.Duplicates.{evaluate_publication_duplicates, safe_to_continue}
use sm_poster.Duplicates.Safety.{HasNoTwin, duplicates_safe_iff}
use sm_poster.Examples.Data.{at, publication, due}

duplicates_safe_iff_example :
    ((evaluate_publication_duplicates true due (publication 1 scheduled (some (at 5)))).status
      ≡ safe_to_continue)
    ↔ HasNoTwin true (publication 1 scheduled (some (at 5))) due
duplicates_safe_iff_example = duplicates_safe_iff true due (publication 1 scheduled (some (at 5)))

published_through_publishing_example : Memᴰ publishing (scheduled ∷ publishing ∷ published ∷ [])
unfolding can_transition
published_through_publishing_example =
    published_through_publishing (change refl (change refl (change refl here)))

unknown_never_retried_blindly_example :
    Memᴰ publish_failed (publish_failed ∷ scheduled ∷ publishing ∷ [])
unfolding can_transition
unknown_never_retried_blindly_example =
    unknown_never_retried_blindly (change refl (change refl (change refl here)))
