-- ===== src/Tests.antt =====
-- Runs of the models on concrete inputs, and the theorems at such inputs.
mod Wire
mod Sessions
mod Replays
mod Policies
mod Gateways
mod Packets
mod Controls
mod Codes
mod Relays
mod Logins
mod Tokens
mod Manifests
mod Names
mod Plans
mod Helpers
mod Clients
mod Responses
mod Transfers
mod Servers
