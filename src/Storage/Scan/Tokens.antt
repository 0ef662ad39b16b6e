-- ===== src/Storage/Scan/Tokens.antt =====
-- The tokens of mounted files, of library.rs.
use binbook.Prelude.{ℕ, ◌≡◌, some, arith}
use binbook.Storage.Types.{for_mount_entry, new_mount_token, mount_generation, entry_index}

-- A token carries the generation of its mount and the index of its entry.
for_mount_entry_lem :
    (generation index token : ℕ)
    → for_mount_entry generation index ≡ some token
    → (mount_generation token ≡ generation) × (entry_index token ≡ some index)
unfolding for_mount_entry new_mount_token mount_generation entry_index
for_mount_entry_lem generation index token e = ground (arith, e)
