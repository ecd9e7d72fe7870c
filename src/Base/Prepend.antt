-- ===== src/Base/Prepend.antt =====
-- Texts put together in a way that computes where the first one is a literal.
use Prim.Native.String.{String, ◌++◌}
use mathlib.Core.Path.{◌≡◌, ap, ◌∙◌}
use text.Mathlib.TextLemmas.{nil-append, cons-append}

-- `s ++ t`, in a form that computes at a literal `s`.
unfoldable pub prepend : String → String → String
prepend String.[] t = t
prepend (String.◌∷◌ c s) t = String.◌∷◌ c (prepend s t)

pub append-prepend : (s t : String) → s ++ t ≡ prepend s t
unfolding prepend
append-prepend String.[] t = nil-append t
append-prepend (String.◌∷◌ c s) t = cons-append c s t ∙ ap (String.◌∷◌ c) (append-prepend s t)
