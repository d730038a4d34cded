-- ===== src/Examples/Admission.antt =====
-- Two calls that are admitted with a megabyte of room in a message and less in the run.
use serpe.Base.{◌+◌, ◌*◌, ◌≤◌, ◌≡◌, refl}
use serpe.Loops.Admission.{
  Admission, Used, ok, tool_exchange_admission, clamp_to, raw_quota_divisor, per_call_raw_reserve,
  tool_exchange_admission_fits,
}

abbrev retained : Used
retained = record { ceiling = 100000; used = 1000 }

abbrev canonical : Used
canonical = record { ceiling = 90000; used = 2000 }

abbrev admission : Admission
admission = record { quota = 85652; reserved = 2248; assistant_bytes = 100; minimum_group = 2348 }

admitted : tool_exchange_admission 2 100 200 1000000 retained canonical ≡ ok admission
unfolding tool_exchange_admission
admitted = refl

tool_exchange_admission_fits_example :
    let q = (clamp_to 50000 admission).quota in
    (raw_quota_divisor * q + 200 + 2 * per_call_raw_reserve ≤ 1000000)
    × (q + admission.minimum_group + 1000 ≤ 100000)
    × (q + admission.minimum_group + 2000 ≤ 90000)
    × (admission.minimum_group ≡ 100 + 200 + 2 * per_call_raw_reserve)
tool_exchange_admission_fits_example =
    tool_exchange_admission_fits 2 100 200 1000000 50000 retained canonical admission admitted
