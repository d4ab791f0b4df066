-- ===== src/Control/Handoff/Chain/Order.antt =====
-- Where the last record of a chain of internal/control/handoff.go stands in the order of the phases.
use ctrldb.Prelude.{
  none, some, true, refl, arith, ◌≡◌, subst, sym, last?, ◌∷◌, [], ◌&&◌, List, ℕ, Option, not,
  str_eq, Bool, false,
}
use ctrldb.Control.Handoff.Records.{latest}
use ctrldb.Control.Handoff.{
  HandoffRecord, HandoffPhase, phase_order_unknown, order, phase_text, other, envelope_sealed,
  audit_bucket_claimed, audit_bucket_created, envelope_uploaded, journal_uploaded,
  lifecycle_configured, handoff_verified, retention_configured, retention_lock_claimed,
  retention_locked, control_bucket_claimed, control_bucket_created,
}
use ctrldb.Prelude.Int.{ℤ, pos, leb_ℤ, eqb_ℤ}
use ctrldb.Control.Handoff.Chain.{order_after, last_after, known_order}

order_after_last :
    (previous : ℤ) (r : HandoffRecord) (records : List HandoffRecord)
    → order_after previous (r ∷ records) ≡ order (latest (r ∷ records))
order_after_last previous r [] = refl
order_after_last previous r (next ∷ records) = order_after_last (order r.phase) next records

pub order_after-latest :
    (records : List HandoffRecord)
    → order_after phase_order_unknown records ≡ order (latest records)
order_after-latest [] = refl
order_after-latest (r ∷ records) = order_after_last phase_order_unknown r records

last_after_last :
    (before_it : Option HandoffRecord) (r : HandoffRecord) (records : List HandoffRecord)
    → last_after before_it (r ∷ records) ≡ last? (r ∷ records)
last_after_last before_it r [] = refl
last_after_last before_it r (next ∷ records) = last_after_last (some r) next records

pub last_after-none : (records : List HandoffRecord) → last_after none records ≡ last? records
last_after-none [] = refl
last_after-none (r ∷ records) = last_after_last none r records

not_both : {a : Bool} → a && true ≡ false → a ≡ false
not_both {a} h = ground arith

-- Where the phase is not behind the last one, its place is after it.
pub is_behind-order :
    (phase last : HandoffPhase)
    → eqb_ℤ (order phase) phase_order_unknown ≡ false
    → leb_ℤ (order phase) (order last) && not (str_eq (phase_text last) "") ≡ false
    → leb_ℤ (order phase) (order last) ≡ false
is_behind-order phase envelope_sealed known h = not_both h
is_behind-order phase audit_bucket_claimed known h = not_both h
is_behind-order phase audit_bucket_created known h = not_both h
is_behind-order phase envelope_uploaded known h = not_both h
is_behind-order phase journal_uploaded known h = not_both h
is_behind-order phase lifecycle_configured known h = not_both h
is_behind-order phase handoff_verified known h = not_both h
is_behind-order phase retention_configured known h = not_both h
is_behind-order phase retention_lock_claimed known h = not_both h
is_behind-order phase retention_locked known h = not_both h
is_behind-order phase control_bucket_claimed known h = not_both h
is_behind-order phase control_bucket_created known h = not_both h
is_behind-order phase (other s) known h =
    let (n, is, _) = known_order phase known in
    subst (λ z. leb_ℤ z phase_order_unknown ≡ false) (sym is) (above n)
  where
    above : (n : ℕ) → leb_ℤ (pos n) phase_order_unknown ≡ false
    above n = ground arith
