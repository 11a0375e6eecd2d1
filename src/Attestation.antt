-- ===== src/Attestation.antt =====
-- The directory attestation: Android key attestation, enrolment and device signatures.
pub mod Crypto
pub mod Challenges
pub mod Devices
pub mod Chain
pub mod Controller
pub mod DeviceGuard
pub mod GoogleRoots
pub mod Module
pub mod Concurrent
