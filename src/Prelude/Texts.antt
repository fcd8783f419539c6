-- ===== src/Prelude/Texts.antt =====
-- Texts that are put together.
use Prim.Native.String.{String, ◌++◌ as text_append}

infixr 65 ◌<>◌
abbrev pub ◌<>◌ : String → String → String
◌<>◌ = text_append
