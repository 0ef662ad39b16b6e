-- ===== src/Transfer/Tests.antt =====
-- Runs of the idle timeout, the lease pool and the readback pipeline, and the theorems about them at
-- concrete inputs.
use binbook.Prelude.{ℕ, none, some, List, [], ◌∷◌, replicate}
use binbook.Transfer.Slots.{Descriptor, upload, transfer_data_bytes}
use binbook.Transfer.Timeout.{IdleTimeout}
use binbook.Transfer.Leases.{LeasePool}

abbrev idle : IdleTimeout
idle = record { deadline_ms = none }

abbrev buffer : List ℕ
buffer = replicate transfer_data_bytes 0

abbrev payload : List ℕ
payload = 7 ∷ 8 ∷ 9 ∷ []

abbrev pool : LeasePool
pool = record {
  buffers = some buffer ∷ some buffer ∷ some buffer ∷ some buffer ∷ [];
  generation = 5;
}

abbrev chunk : Descriptor
chunk = record { slot = 2; generation = 5; offset = 0; len = 3; direction = upload }
