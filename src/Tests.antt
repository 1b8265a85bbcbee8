-- ===== src/Tests.antt =====
-- The theorems at concrete inputs, and runs of the definitions.
mod EditorRuns
mod WriteRuns
mod PoolRuns
mod PolicyRuns
mod AgentRuns
mod AuditRuns
mod SafetyRuns
mod JobRuns
mod SecretRuns
mod TransferRuns
mod SessionRuns
mod TunnelRuns
mod SearchRuns
mod ShellRuns
mod ExecRuns
mod HostRuns
