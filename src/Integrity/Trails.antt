-- ===== src/Integrity/Trails.antt =====
-- Replaying the audit trail: an entry more, and what a trail without entries says.
use railbook.Base.{ℕ, ◌≡◌, refl, true, false, List, [], ◌∷◌, ◌++◌, arith, ◌==◌, if◌then◌else◌}
use railbook.Base.Rows.{has_row}
use railbook.Models.{Status, AuditTrail}
use railbook.Integrity.{Trail, fresh, at, advance, replay}

module _ (k : ℕ) where
  pub replay-append :
      (t : Trail) (es : List AuditTrail) (e : AuditTrail)
      → replay k t (es ++ e ∷ [])
        ≡ (if e.booking_id == k then advance (replay k t es) e else replay k t es)
  unfolding replay
  replay-append t [] e = refl
  replay-append t (x ∷ es) e = replay-append (if x.booking_id == k then advance t x else t) es e

  pub replay_absent :
      (t : Trail) (es : List AuditTrail)
      → has_row (λ (e : AuditTrail). e.booking_id) k es ≡ false
      → replay k t es ≡ t
  unfolding replay
  replay_absent t [] h = refl
  replay_absent t (x ∷ es) h = ground (arith, replay_absent t es)

  -- A booking that stands in a status has an entry.
  pub has_entry :
      (es : List AuditTrail) (s : Status)
      → replay k fresh es ≡ at s
      → has_row (λ (e : AuditTrail). e.booking_id) k es ≡ true
  has_entry es s h = ground (arith, replay_absent fresh es)
