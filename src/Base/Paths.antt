-- ===== src/Base/Paths.antt =====
-- `filepath.Base`.
use mathlib.Core.List.{List, [], ◌∷◌, reverse}
use system_monitor_go.Base.Tests.{◌==◌, if◌then◌else◌}
use system_monitor_go.Base.Texts.{Text, codes}
use system_monitor_go.Base.Splits.{split}

drop_slashes : Text → Text
drop_slashes [] = []
drop_slashes (c ∷ s) = if c == b'/' then drop_slashes s else c ∷ s

last_piece : List Text → Text
last_piece [] = []
last_piece (p ∷ []) = p
last_piece (p ∷ q ∷ ps) = last_piece (q ∷ ps)

-- `filepath.Base`
unfoldable pub base_name : Text → Text
unfolding drop_slashes last_piece split
base_name [] = codes "."
base_name (c ∷ s) = elim (reverse (drop_slashes (reverse (c ∷ s)))) [
  | [] ↦ codes "/"
  | d ∷ t ↦ last_piece (split (d ∷ t) b'/')
]
