-- ===== src/Pages/Examples.antt =====
-- The screens on small workspaces.
mod Workspace
mod Telemetry
mod Shell
