-- ===== src/Prelude/Text.antt =====
-- `std::string` as the native text.
use Prim.Native.String
use Prim.Native.String.{String}
use mathlib.Core.Bool.{Bool}
use collections.Prelude.Tests.{◌==◌, string_eq}

-- `s.empty()`
abbrev pub is_empty : String → Bool
is_empty s = s == ""

infixr 65 ◌<>◌
-- `+` of two strings.
abbrev pub ◌<>◌ : String → String → String
s <> t = String.◌++◌ s t
