-- ===== src/Coordinator/ListingTests.antt =====
-- What is shown of a job, at small databases.
use neuralmesh.Common.{refl, ◌≡◌, none}
use neuralmesh.Common.Int.{◌*ℤ◌, ◌+ℤ◌, ◌-ℤ◌}
use neuralmesh.Coordinator.Jobs.{submit_job}
use neuralmesh.Coordinator.Listing.{get_job, job_view}
use neuralmesh.Coordinator.Listing.Viewing.{submit_job-get_job}
use neuralmesh.Coordinator.Rows.{queued}
use neuralmesh.Coordinator.Sample.{job_order, empty, job_row, credit_row}
use neuralmesh.Coordinator.Store.{ok}

submit_job-get_job_example :
    (get_job 1 (submit_job job_order 1 2 3 empty).1).0
    ≡ ok (record (job_view (job_row 1 queued none none 0)) { runtime = "mlx" })
unfolding ◌+ℤ◌ ◌-ℤ◌ ◌*ℤ◌
submit_job-get_job_example =
    submit_job-get_job job_order 1 2 3 empty (credit_row 7 50 10) refl refl refl refl refl refl
