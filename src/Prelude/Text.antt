-- ===== src/Prelude/Text.antt =====
-- Character classes, and the identifiers that the code matches by regular expressions.
use Prim.Native.Nat.{ℕ}
use Prim.Native.Char.{code}
use Prim.Native.String.{String}
use mathlib.Core.Bool.{Bool, ◌&&◌, ◌||◌}
use mathlib.Core.List.{List, [], ◌∷◌}
use shimpz_drivers.Prelude.Tests.{leb, ◌==◌, eq_nat}
use shimpz_drivers.Prelude.Lists.{length, all}

-- The code points of a text.
abbrev pub codes : String → List ℕ
codes String.[] = []
codes (String.◌∷◌ c s) = code c ∷ codes s

abbrev pub is_lower : ℕ → Bool
is_lower c = leb b'a' c && leb c b'z'

abbrev pub is_upper : ℕ → Bool
is_upper c = leb b'A' c && leb c b'Z'

abbrev pub is_digit : ℕ → Bool
is_digit c = leb b'0' c && leb c b'9'

-- [0-9a-f]
abbrev pub is_hex : ℕ → Bool
is_hex c = is_digit c || (leb b'a' c && leb c b'f')

-- `[class]{low,high}\Z` by fullmatch
abbrev pub matches : (ℕ → Bool) → ℕ → ℕ → String → Bool
matches cls low high s =
    let cs = codes s in leb low (length cs) && leb (length cs) high && all cls cs

-- _TEAM_ID: [a-z0-9_]{1,40}
unfoldable pub is_team_id : String → Bool
is_team_id = matches (λ c. is_lower c || is_digit c || c == b'_') 1 40

-- [0-9a-f]{32}, as of secrets.token_hex(16)
unfoldable pub is_hex32 : String → Bool
is_hex32 = matches is_hex 32 32

-- [a-f0-9]{64}, a SHA-256 digest
unfoldable pub is_hex64 : String → Bool
is_hex64 = matches is_hex 64 64
