-- ===== src/Tests.antt =====
-- Runs on concrete inputs, and the theorems at such inputs.
mod Samples
mod Keys
mod Rotation
mod Circuits
mod Windowed
mod Consuming
mod Emitting
mod Limiting
mod Retrying
mod Asking
mod Sealed
mod Polled
mod Filing
mod Managing
mod Configuring
mod Locking
mod Logging
mod Serving
mod Measuring
mod Deploying
mod Staging
mod Unverified
mod Cancelling
