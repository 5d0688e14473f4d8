-- ===== src/Tests/Ranges.antt =====
-- A launch's nonces, split.
use csd_mining_pool_public.Prelude.{◌-◌, ◌/◌, ◌∷◌, true, false, arith}
use csd_mining_pool_public.Partition.{Share, cpu_total, partition_nonce_range}
use csd_mining_pool_public.Partition.Tiles.{Tile, Even, partition_nonce_range-Tile}

-- A tenth of the range.
abbrev tenth : Share
tenth = record { above_zero = true; is_one = false; rounded = λ total. total / 10 }

partition_nonce_range-Tile_example :
    let split = partition_nonce_range 5 10_005 tenth 3 in
    Tile 5 10_005 (split.0 ∷ split.1) × Even (cpu_total tenth (10_005 - 5) / 3) split.1
partition_nonce_range-Tile_example =
    partition_nonce_range-Tile 5 10_005 tenth 3 (omega arith) (omega arith)
