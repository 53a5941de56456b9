-- ===== src/Ledger/SettlementTests.antt =====
-- A release through the endpoint, on a node that takes every transaction.
use Prim.Native.String.{String}
use neuralmesh.Coordinator.Sample.{nmc, fixed_point}
use neuralmesh.Database.{RowId}
use neuralmesh.Ledger.Oracle.{OnChainReleaseBody}

abbrev job_text : RowId → String
job_text id = "job-1"

abbrev order : OnChainReleaseBody fixed_point
order = record { job_id = 1; actual_cost_nmc = nmc 2; secret = "s3cret" }
