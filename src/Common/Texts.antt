-- ===== src/Common/Texts.antt =====
-- Texts of the source as lists of character codes.
use Prim.Native.Char.{code}
use Prim.Native.String.{String}
use asas_os.Common.{ℕ, List, [], ◌∷◌}

-- The code points of a text.
abbrev pub codes : String → List ℕ
codes String.[] = []
codes (String.◌∷◌ c s) = code c ∷ codes s
