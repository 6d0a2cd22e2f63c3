-- ===== src/Bookings/Status.antt =====
-- booking-status-machine.ts
use pms_homestay.Prelude.{Bool, true, false}

pub data BookingStatus : Type 0 where
  hold pending confirmed checked_in checked_out cancelled no_show : BookingStatus

-- canTransition(from, to), which reads BOOKING_TRANSITIONS
unfoldable pub can_transition : BookingStatus → BookingStatus → Bool
can_transition hold pending = true
can_transition hold confirmed = true
can_transition hold cancelled = true
can_transition pending confirmed = true
can_transition pending cancelled = true
can_transition confirmed checked_in = true
can_transition confirmed cancelled = true
can_transition confirmed no_show = true
can_transition checked_in checked_out = true
can_transition _ _ = false

-- isTerminal(status), which reads TERMINAL_STATUSES
unfoldable pub is_terminal : BookingStatus → Bool
is_terminal checked_out = true
is_terminal cancelled = true
is_terminal no_show = true
is_terminal _ = false

unfoldable pub status_eq : BookingStatus → BookingStatus → Bool
status_eq hold hold = true
status_eq pending pending = true
status_eq confirmed confirmed = true
status_eq checked_in checked_in = true
status_eq checked_out checked_out = true
status_eq cancelled cancelled = true
status_eq no_show no_show = true
status_eq _ _ = false
