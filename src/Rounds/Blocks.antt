-- ===== src/Rounds/Blocks.antt =====
-- The first block of a round: `round_start` of phylax/rounds.py.
use phylax_subnet.Prelude.{ℕ, ◌+◌, ◌≤◌, ◌<◌, ◌≡◌, arith}
use phylax_subnet.Rounds.{round_start, round_blocks}

-- A round starts at most a round's length before the block, never after it, and every block of a
-- round has the same start: the start of a start is itself.
pub round_start_bounds :
    (block : ℕ)
    → (round_start block round_blocks ≤ block)
      × (block < round_start block round_blocks + round_blocks)
      × (round_start (round_start block round_blocks) round_blocks ≡ round_start block round_blocks)
unfolding round_start
round_start_bounds block = (omega arith, omega arith, omega arith)
