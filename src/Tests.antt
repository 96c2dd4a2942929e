-- ===== src/Tests.antt =====
-- Runs of the model on small inputs, and the theorems at such inputs.
mod Edits
mod Registries
mod Requests
mod Handling
mod Connections
mod Documents
mod Responses
mod Assists
mod Revisions
