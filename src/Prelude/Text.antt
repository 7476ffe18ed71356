-- ===== src/Prelude/Text.antt =====
-- `std::string` as its bytes: the bytes of an ASCII literal.
use Prim.Native.Char.{code}
use Prim.Native.String.{String}
use mathlib.Core.List.{[], ◌∷◌}
use para_kv.Prelude.Bytes.{Bytes}

abbrev codes : String → Bytes
codes String.[] = []
codes (String.◌∷◌ c s) = code c ∷ codes s

unfoldable pub text : String → Bytes
text s = codes s
