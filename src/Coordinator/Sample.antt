-- ===== src/Coordinator/Sample.antt =====
-- Amounts as integers in units of 1/10000, which instantiate the floats of the model, and small databases.
use Prim.Native.String.{String}
use neuralmesh.Common.{
  ◌/◌, ℕ, none, ◌*◌, ◌∷◌, [], suc, arith, false, ◌^◌, some, Option, ◌≡◌, ◌==◌, if◌then◌else◌,
}
use neuralmesh.Common.Int.{◌-ℤ◌, pos, ℤ, ltb_ℤ, leb_ℤ, negsuc, ◌*ℤ◌, ◌+ℤ◌}
use neuralmesh.Coordinator.Jobs.{SubmitJobBody}
use neuralmesh.Coordinator.Lifecycle.{CompleteJobBody}
use neuralmesh.Coordinator.Rows.{
  locked, Credit, JobState, Job, Provider, Escrow, ProviderState, leased, running,
}
use neuralmesh.Coordinator.Store.{Conn}
use neuralmesh.Database.{RowId, Table}
use neuralmesh.Float.{IsOrdered, Float}

abbrev pub unit : ℕ
unit = 10000

-- Division that rounds towards 0.
abbrev quotient : ℤ → ℕ → ℤ
quotient (pos n) d = pos (n / d)
quotient (negsuc n) d = pos 0 -ℤ pos (suc n / d)

abbrev divide : ℤ → ℤ → ℤ
divide a (pos n) = quotient (a *ℤ pos unit) n
divide a (negsuc n) = pos 0 -ℤ quotient (a *ℤ pos unit) (suc n)

abbrev smaller : ℤ → ℤ → ℤ
smaller a b = if ltb_ℤ b a then b else a

abbrev larger : ℤ → ℤ → ℤ
larger a b = if ltb_ℤ a b then b else a

abbrev pub fixed_point : Float
fixed_point = record {
  F = ℤ;
  add = ◌+ℤ◌;
  sub = ◌-ℤ◌;
  mul = λ a b. quotient (a *ℤ b) unit;
  div = divide;
  neg = λ a. pos 0 -ℤ a;
  min_f64 = smaller;
  greatest = larger;
  least = smaller;
  lt = ltb_ℤ;
  le = leb_ℤ;
  max_value = pos 1000000000000;
  of_int = λ n. n *ℤ pos unit;
  to_i32 = λ a. quotient a unit;
  lit = λ m k. pos (m * unit / 10 ^ k);
}

fixed_sub_add : (a b : ℤ) → a -ℤ b +ℤ b ≡ a
unfolding ◌+ℤ◌ ◌-ℤ◌
fixed_sub_add a b = ground arith

pub fixed_point-IsOrdered : IsOrdered fixed_point
fixed_point-IsOrdered = record {
  irrefl = λ a. ground arith;
  asym = λ a b h. ground arith;
  not_lt_trans = λ a b c h k. ground arith;
}

-- An amount of whole NMC.
abbrev pub nmc : ℕ → ℤ
nmc n = pos (n * unit)

abbrev pub job_row : RowId → JobState → Option RowId → Option String → ℕ → Job fixed_point
job_row job_id state provider_id checkpoint_url restore_attempts = record {
  job_id = job_id;
  consumer_id = 7;
  provider_id = provider_id;
  runtime = some (pos 0);
  min_ram_gb = some (pos 16);
  max_duration_s = some (pos 3600);
  max_price_per_hour = some (nmc 10);
  price_per_hour = none;
  bundle_hash = none;
  bundle_url = none;
  consumer_ssh_pubkey = none;
  consumer_wg_pubkey = none;
  script_name = none;
  preferred_region = none;
  state = state;
  output_hash = none;
  actual_runtime_s = none;
  wireguard_endpoint = none;
  ssh_port = some (pos 2222);
  started_at = none;
  completed_at = none;
  checkpoint_url = checkpoint_url;
  checkpoint_iter = pos 0;
  last_heartbeat = none;
  restore_attempts = restore_attempts;
  failure_reason = none;
  output_log = none;
}

abbrev pub provider_row : RowId → ProviderState → ℕ → Option RowId → Provider fixed_point
provider_row provider_id state price active_job_id = record {
  provider_id = provider_id;
  chip_model = some "M2 Max";
  unified_memory_gb = some (pos 64);
  gpu_cores = some (pos 30);
  metal_version = none;
  serial_number = none;
  installed_runtimes = none;
  bandwidth_mbps = none;
  region = none;
  nm_version = none;
  state = state;
  floor_price_nmc_per_hour = some (nmc price);
  max_job_ram_gb = some (pos 32);
  active_job_id = active_job_id;
  trust_score = some (nmc 4);
  jobs_completed = 0;
  success_rate = none;
  last_seen = some 100;
  gpu_util_pct = none;
  ram_used_gb = none;
  total_gpu_hours_contributed = some (nmc 0);
}

abbrev pub credit_row : RowId → ℕ → ℕ → Credit fixed_point
credit_row account_id free held = record {
  account_id = account_id;
  available_nmc = some (nmc free);
  escrowed_nmc = some (nmc held);
  total_earned_nmc = some (nmc 0);
  total_spent_nmc = some (nmc 0);
}

abbrev pub escrow_row : RowId → RowId → ℕ → Escrow fixed_point
escrow_row escrow_id job_id amount = record {
  escrow_id = escrow_id;
  job_id = job_id;
  consumer_id = 7;
  provider_id = none;
  locked_nmc = nmc amount;
  state = locked;
  settled_at = none;
}

abbrev pub no_rows : {A : Type 0} → Table A
no_rows = record { ids = []; row = λ k. none }

abbrev pub one_row : {A : Type 0} → RowId → A → Table A
one_row k a = record { ids = k ∷ []; row = λ j. if k == j then some a else none }

abbrev pub two_rows : {A : Type 0} → RowId → A → RowId → A → Table A
two_rows k a l b = record {
  ids = k ∷ (l ∷ []);
  row = λ j. if k == j then some a else if l == j then some b else none;
}

-- At second 1000, with no fault to come.
abbrev pub connected :
    Table (Job fixed_point)
    → Table (Provider fixed_point)
    → Table (Escrow fixed_point)
    → Conn fixed_point
connected jobs providers escrows = record {
  store = record {
    jobs = jobs;
    providers = providers;
    credits = one_row 7 (credit_row 7 50 10);
    escrows = escrows;
    transactions = no_rows;
    deposits = [];
    accounts = no_rows;
    kyc_records = no_rows;
    checkpoints = no_rows;
    milestones = [];
  };
  now = 1000;
  faults = [];
  oracle_enabled = false;
  oracle_calls = [];
}

abbrev pub job_order : SubmitJobBody fixed_point
job_order = record {
  account_id = 7;
  runtime = "mlx";
  min_ram_gb = pos 16;
  max_duration_secs = pos 3600;
  max_price_per_hour = nmc 10;
  bundle_hash = none;
  bundle_url = none;
  script_name = none;
  preferred_region = none;
}

abbrev pub empty : Conn fixed_point
empty = connected no_rows no_rows no_rows

abbrev pub working : Job fixed_point
working = job_row 1 running (some 5) none 0

abbrev pub worker : Provider fixed_point
worker = provider_row 5 leased 2 (some 1)

abbrev pub under_way : Conn fixed_point
under_way = connected (one_row 1 working) (one_row 5 worker) (one_row 2 (escrow_row 2 1 10))

-- An hour of a job at 10 NMC an hour: the provider gets 9.2.
abbrev pub priced : Job fixed_point
priced = record working { price_per_hour = some (nmc 10) }

abbrev pub finishing : Conn fixed_point
finishing = record under_way {
  store = record (connected (one_row 1 priced) (one_row 5 worker) no_rows).store {
    credits = two_rows 5 (credit_row 5 0 0) 7 (credit_row 7 50 10);
  };
}

abbrev pub report : CompleteJobBody
report = record {
  provider_id = 5;
  exit_code = pos 0;
  output_hash = "h";
  actual_runtime_s = pos 3600;
}
