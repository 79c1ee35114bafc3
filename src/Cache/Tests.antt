-- ===== src/Cache/Tests.antt =====
-- Runs and instances for the cache operations.
use ulmk_boards.Base.{ℕ, ◌+◌, ◌*◌, ◌≤◌, ◌<◌, ◌≡◌, refl, true, some, List, [], ◌∷◌, arith}
use ulmk_boards.Cache.Linum.{
  ulmk_dcache_clean, range_op, line_start, line_end, board_dcache_clean, board_dcache_clean_area,
  area_op, rows_from,
}
use ulmk_boards.Cache.P4.{Step, sync_map_for, sync_range}
use ulmk_boards.Cache.Cover.{reached, board_dcache_clean_area-reached}
use ulmk_boards.Cache.Sync.{Synced, sync_range-Synced}

clean_run : board_dcache_clean 100 40 ≡ ulmk_dcache_clean 96 64 ∷ []
unfolding board_dcache_clean range_op line_start line_end
clean_run = refl

area_run :
    board_dcache_clean_area 0x1000 64 1 0 8 2 4
    ≡ ulmk_dcache_clean 0x1000 64 ∷ ulmk_dcache_clean 0x1040 64 ∷ []
unfolding board_dcache_clean_area area_op rows_from board_dcache_clean range_op line_start line_end
area_run = refl

windows_run :
    (sync_map_for 0x48000000 ≡ 48) × (sync_map_for 0x4FF00000 ≡ 16) × (sync_map_for 0x1000 ≡ 0)
unfolding sync_map_for
windows_run = (refl, refl, refl)

board_dcache_clean_area-reached_example :
    reached (board_dcache_clean_area 0x1000 64 1 0 8 2 4) (0x1000 + 0 * 64 + 1 * 4 + 1 * 64 + 5)
    ≡ true
board_dcache_clean_area-reached_example =
    board_dcache_clean_area-reached 0x1000 64 1 0 8 2 4 1 5 (omega arith) (omega arith)
      (omega arith) (omega arith) (omega arith) (omega arith) (omega arith) (omega arith)
      (omega arith) (omega arith)

sync_range-Synced_example :
    (steps : List Step) × (sync_range 5 4 0x48000010 5000 ≡ some steps)
    × ((b : ℕ)
        → 0x48000010 ≤ b
        → b < 0x48000010 + 5000
        → Synced (sync_map_for 0x48000010) 4 steps b)
unfolding sync_map_for
sync_range-Synced_example =
    sync_range-Synced 5 4 0x48000010 5000 (omega arith) (omega arith)
      (λ e. absurd (omega (arith, e))) (omega arith) (omega arith)
