-- ===== src/Booking.antt =====
-- backend/src/domain/provider-booking-service.ts: the changes of a booking that a provider asks for
-- on an inbound call. The repository is a parameter that answers in any way.
pub mod Types
pub mod Service
pub mod Reschedule
pub mod Submission
