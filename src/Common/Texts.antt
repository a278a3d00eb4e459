-- ===== src/Common/Texts.antt =====
-- strings.Contains.
use Prim.Native.String.{String, find, len}
use mathlib.Core.Bool.{Bool}
use envoy_trade.Common.Tests.{leb}

-- A miss is one more than the text's length.
unfoldable pub contains : String → String → Bool
contains s part = leb (find s part) (len s)
