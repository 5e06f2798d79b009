-- ===== src/Tests.antt =====
-- Runs of the operations on small inputs.
mod Fixtures
mod Requests
mod Chain
mod Recording
mod Archiving
mod Granting
mod Notifying
mod Serving
mod Keys
mod Repeating
mod Polling
mod Deciding
mod Connecting
mod Posting
