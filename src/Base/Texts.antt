-- ===== src/Base/Texts.antt =====
-- Texts that contain others.
use Prim.Native.String.{String}
use mathlib.Core.Bool.{Bool, true, false}
use mathlib.Core.Option.{none, some}
use text.Mathlib.Text.{find?}

-- `part in text`
unfoldable pub contains_text : String → String → Bool
contains_text text part = elim (find? text part) [ none ↦ false | some i ↦ true ]
