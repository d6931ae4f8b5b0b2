-- ===== src/Base/Text.antt =====
-- strings.TrimSpace(s) == "" of Go's standard library, and UUIDs, of which the program only uses
-- equality and the nil value.
use Prim.Native.Nat.{ℕ}
use Prim.Native.Char.{code}
use Prim.Native.String.{String}
use mathlib.Core.Path.{◌≡◌, refl}
use mathlib.Core.Bool.{Bool, true, false, ◌&&◌, ◌||◌}
use mathlib.Core.Option.{Option, none, some}
use mathlib.Core.List.{List, [], ◌∷◌}
use aegis_core.Base.Checks.{leb, ◌==◌}

-- unicode.IsSpace
unfoldable pub is_space : ℕ → Bool
is_space c =
    (leb 9 c && leb c 13)
    || c == 32
    || c == 0x85
    || c == 0xa0
    || c == 0x1680
    || (leb 0x2000 c && leb c 0x200a)
    || c == 0x2028
    || c == 0x2029
    || c == 0x202f
    || c == 0x205f
    || c == 0x3000

-- strings.TrimSpace(s) == ""
unfoldable pub is_blank : String → Bool
unfolding is_space
is_blank String.[] = true
is_blank (String.◌∷◌ c s) = is_space (code c) && is_blank s

is_blank_runs : (is_blank " \t" ≡ true) × (is_blank " a " ≡ false)
unfolding is_blank
is_blank_runs = (refl, refl)

-- the runes of a text
abbrev pub codes : String → List ℕ
codes String.[] = []
codes (String.◌∷◌ c s) = code c ∷ codes s

-- 128-bit identifiers, as numbers; 0 is uuid.Nil()
abbrev pub Uuid : Type 0
Uuid = ℕ

abbrev pub nil_uuid : Uuid
nil_uuid = 0

-- uuidValue of message.go: a missing identifier is the nil one
abbrev pub uuid_value : Option Uuid → Uuid
uuid_value none = nil_uuid
uuid_value (some u) = u
