-- ===== src/Lib.antt =====
-- NeuralMesh: a marketplace on which consumers submit jobs, providers with idle GPUs run them, and
-- escrows pay for them in NMC. This library models the parts that move money or decide who runs what.
--
-- The parts, and the files that model them:
--   * The on-chain programme, contracts/solana/programs/neuralmesh/src: Solana.antt and the files under
--     Solana/. State has the accounts of state.rs and the errors of errors.rs; Bridge, Provider and
--     Escrow have the instructions of lib.rs with the constraints of their accounts, one function per
--     instruction; Programme composes them into the steps of a history. A handler takes the world, that
--     is accounts, tokens, clock and events, and gives the next one or a fault, a fault changing nothing.
--     Amounts are 64-bit and a checked operation that overflows is a fault. What Solana itself does, the
--     derivation of addresses and the token programme, is the parameter Runtime; the theorems name the
--     laws of transfers that they need.
--   * The coordinator, coordinator/src: Coordinator.antt and the files under Coordinator/. Rows has the
--     rows of its tables and Store the statements of a handler. The handlers of api/rest.rs and
--     api/grpc.rs run no transaction, so a handler is a sequence of statements of which any may fail: the
--     connection carries the list of the failures to come, and a failure ends the handler with what was
--     written before it. Keeping has the rule for a property that every statement keeps, and Leading the
--     one for what each statement makes of the property before it. Jobs has submit_job and cancel_job;
--     Lifecycle the provider's endpoints; Payments the balance, the credit from a card, withdrawals and
--     the list of transactions; Logs and Checkpoints those of a job; Accounts and Kyc the accounts that
--     are bound to a device and their approval; Listing and Network what is shown of jobs, providers and
--     totals; Grpc the gRPC service; Matching the auction and Migration the watcher of matching/mod.rs,
--     with the eviction of reputation/mod.rs.
--     SQL is read as tables of rows in the order of insertion, with NULL as none (Database).
--   * The ledger service, ledger/src: Ledger.antt has the handlers of off_chain/handlers.rs, on the tables
--     that it shares with the coordinator, Ledger/Oracle the settlement endpoints of main.rs, and
--     Ledger/Settlement one of them with the oracle behind it.
--     Ledger/Accounts is what the service promises, as balances and the movements between them, and
--     Ledger/Refinement compares the two.
--   * The transactions that the ledger sends, ledger/src/on_chain/arbitrum.rs: Arbitrum.antt has the
--     encodings, on lists of bytes, and Arbitrum/Oracle the calls of a node that settle an escrow. A node is
--     a parameter, what it answers to a request after the requests before it. The wait for a receipt makes at
--     most 30 requests, as in the code, and so ends.
--   * The provider's machine: Idle.antt is the idle detector of crates/nm-macos/src/idle.rs, Agent.antt a
--     cycle of the loop of agent/src/idle_monitor.rs with the heartbeats that it sends to Grpc,
--     Agent/Polling the job that it reads from the answer of Lifecycle, and Stun.antt the discovery of a
--     public address in crates/nm-wireguard/src/nat.rs. Agent/Runner is the run of a job of
--     agent/src/job_runner.rs with the reports of it that idle_monitor.rs sends to Lifecycle and Logs, and
--     Agent/Checkpoint the checkpoints of agent/src/checkpoint.rs, which go to Coordinator/Checkpoints.
--     What the programs and the files of a machine give is a record of parameters.
--   * The keys and attestations, crates/nm-crypto/src: Crypto.antt has keys.rs and pq_keys.rs,
--     Crypto/Attestation and Crypto/Hybrid the signed claims of attestation.rs and
--     hybrid_attestation.rs. The schemes, hashes and the hex code are the parameter Schemes, with what
--     their documents promise as the laws IsCorrect and IsPair.
--   * What a GPU can run, crates/nm-gpu/src/types.rs and runtime_map.rs: Gpu.antt. The tunnel of a job,
--     crates/nm-wireguard/src/tunnel.rs: Tunnel.antt, on the interfaces that are up, with the programs that
--     it runs as parameters.
--   * Float is the interface of double-precision numbers: a parameter, with the laws that some
--     theorems need as hypotheses. Common has the helpers that all of them share.
--
-- UUIDs are drawn by the caller and given as arguments; identifiers are numbers, and the empty text of
-- an identifier is 0. Times are whole seconds. Every function is total. Loops go over lists that are
-- given, but for the attributes of a STUN response: each takes four bytes or more, so that the parser
-- runs on fuel of one more than the length of the response.
--
-- Not modelled: the upload and download of artifacts, the sandbox profile and the command lines of the
-- agent, the command line interface, the backends that read the drivers of a GPU, the dashboard and the
-- EVM contracts; the notices over NATS and the log files; the hash functions and the curves. They are input
-- and output, or calls of libraries; the contracts are not Rust. The score of a bid in crates/nm-common
-- mixes two precisions of floats and is called by no part.
pub mod Common
pub mod Float
pub mod Database
pub mod Coordinator
pub mod Arbitrum
pub mod Ledger
pub mod Stun
pub mod Idle
pub mod Agent
pub mod Solana
pub mod Crypto
pub mod Gpu
pub mod Tunnel
