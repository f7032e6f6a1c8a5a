-- ===== src/ServerMain/Launch.antt =====
-- The start of the server, as a whole.
use ds_service.Base.{ℕ, zero, suc, ◌+◌, Bool, true, ◌&&◌, List, [], ◌∷◌, if◌then◌else◌}

-- The positions from an index on
abbrev pub positions : ℕ → ℕ → List ℕ
positions index zero = []
positions index (suc n) = index ∷ positions (index + 1) n

abbrev pub all_start : List Bool → Bool
all_start [] = true
all_start (starts ∷ transports) = starts && all_start transports

-- The transports before the first that does not start
abbrev pub starting : List Bool → ℕ
starting [] = 0
starting (starts ∷ transports) = if starts then suc (starting transports) else 0
