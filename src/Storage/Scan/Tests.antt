-- ===== src/Storage/Scan/Tests.antt =====
-- A batch of two records of a scan.
use binbook.Prelude.{ℕ, ◌≡◌, refl, Bool, true, some, none, List, [], ◌∷◌, replicate, ok, arith}
use binbook.Storage.Types.{new_mount_token}
use binbook.Storage.Scan.{ScanRecord, encode_scan_records, decode_scan_records}
use binbook.Storage.Scan.RoundTrip.{decode_scan_records-encode_scan_records}

abbrev records : List ScanRecord
records =
    record { name = 97 ∷ 98 ∷ []; size = 70_000; mount_token = some 257 }
    ∷ record { name = 99 ∷ []; size = 0; mount_token = none }
    ∷ []

abbrev any_bytes : List ℕ → Bool
any_bytes bytes = true

decode_scan_records-encode_scan_records_example :
    (bytes : List ℕ) × (encode_scan_records records (replicate 1_056 9) ≡ ok bytes)
    × (decode_scan_records any_bytes 2 bytes ≡ ok records)
unfolding new_mount_token
decode_scan_records-encode_scan_records_example =
    decode_scan_records-encode_scan_records any_bytes records (replicate 1_056 9)
      (
        record {
          named = omega arith;
          short = omega arith;
          utf8 = refl;
          size = omega arith;
          value = omega arith;
          token = refl;
        },
        (
          record {
            named = omega arith;
            short = omega arith;
            utf8 = refl;
            size = omega arith;
            value = omega arith;
            token = refl;
          },
          tt,
        ),
      )
      (omega arith) (omega arith)
