-- ===== src/Tests.antt =====
-- Runs of the modelled code at concrete inputs, and the theorems at them.
mod CclRuns
mod EcsRuns
mod NfaRuns
mod DfaRuns
mod NtodRuns
mod QueueRuns
mod SymRuns
mod ScanFlagsRuns
mod TblcmpRuns
mod TablesRuns
mod MiscRuns
mod ContextRuns
mod GenRuns
