-- ===== src/Rounds.antt =====
-- Rounds and budgets: phylax/rounds.py but for `select_tasks`. `sha256` is
-- `hashlib.sha256(s.encode()).hexdigest()`.
pub mod Blocks
use phylax_subnet.Prelude.{ℕ, ◌*◌, ◌/◌, String, List, [], ◌∷◌, ◌++◌, Dict, get, none, some}
use phylax_subnet.Prelude.Text.{Text, codes}

abbrev pub tracks : List String
tracks = "skills" ∷ "mcp_servers" ∷ "packages" ∷ "repositories" ∷ []

abbrev pub round_blocks : ℕ
round_blocks = 3600

pub record Budgets : Type 0 where
  pub tasks : ℕ
  pub repetitions : ℕ
  pub cpu_s : ℕ

abbrev pub skills_budgets : Budgets
skills_budgets = record { tasks = 50; repetitions = 3; cpu_s = 8 }

abbrev pub track_budgets : Dict Budgets
track_budgets =
    ("skills", skills_budgets)
    ∷ ("mcp_servers", record { tasks = 40; repetitions = 3; cpu_s = 15 })
    ∷ ("packages", record { tasks = 30; repetitions = 3; cpu_s = 30 })
    ∷ ("repositories", record { tasks = 50; repetitions = 2; cpu_s = 90 })
    ∷ []

abbrev pub agent_wall_factor : ℕ
agent_wall_factor = 2

unfoldable pub budgets_for : String → Budgets
budgets_for track = elim (get track_budgets track) [ none ↦ skills_budgets | some b ↦ b ]

unfoldable pub agent_wall_cap_s : String → ℕ
agent_wall_cap_s track =
    let b = budgets_for track in agent_wall_factor * b.tasks * b.repetitions * b.cpu_s

unfoldable pub round_start : ℕ → ℕ → ℕ
round_start block blocks_per_round = block / blocks_per_round * blocks_per_round

unfoldable pub round_seed : (Text → Text) → Text → Text → Text
round_seed sha256 start_block_hash track = sha256 (start_block_hash ++ codes ":" ++ track)

unfoldable pub validator_draw_seed : (Text → Text) → Text → Text → Text
validator_draw_seed sha256 seed hotkey = sha256 (seed ++ codes ":" ++ hotkey)

unfoldable pub task_nonce : (Text → Text) → Text → Text → Text → Text
task_nonce sha256 seed ref agent = sha256 (seed ++ codes ":" ++ ref ++ codes ":" ++ agent)
