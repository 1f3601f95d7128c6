-- ===== src/Consent.antt =====
-- profile/packages/consent/src: what is shown of a call before it is made.
pub mod Template
