-- ===== src/Admission.antt =====
-- internal/admission: the door before the transaction.
pub mod Door
