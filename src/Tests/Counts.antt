-- ===== src/Tests/Counts.antt =====
-- What the example files share.
use Prim.Native.String.{String}
use droidsaw_hermes.Prelude.{ℕ, Bool, leb, ◌*◌}
use droidsaw_hermes.Sections.{Section}
use droidsaw_hermes.DebugInfo.{range}

-- A `bound_count` as it is documented.
abbrev pub fits : ℕ → ℕ → ℕ → Bool
fits count stride len = leb (count * stride) len

abbrev pub placed : String → ℕ → ℕ → Section
placed name offset size = record { name = name; range = range offset size }
