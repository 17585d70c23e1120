-- ===== src/Prelude/Lines.antt =====
-- Ruby's `start_with?`, `include?` and the anchor `^`, which matches behind every line feed.
use oauth.Prelude.Tests.{Bytes, ◌==◌}
use mathlib.Core.Bool.{Bool, true, false, ◌&&◌, ◌||◌}
use mathlib.Core.List.{[], ◌∷◌}

unfoldable pub start_with : Bytes → Bytes → Bool
start_with s [] = true
start_with [] (c ∷ prefix) = false
start_with (d ∷ s) (c ∷ prefix) = d == c && start_with s prefix

-- `s.include?(part)`
unfoldable pub include_text : Bytes → Bytes → Bool
unfolding start_with
include_text part [] = start_with [] part
include_text part (c ∷ s) = start_with (c ∷ s) part || include_text part s

lines_after_feed : Bytes → Bytes → Bool
lines_after_feed prefix [] = false
lines_after_feed prefix (c ∷ []) = false
lines_after_feed prefix (c ∷ d ∷ s) =
    (c == 10 && start_with (d ∷ s) prefix) || lines_after_feed prefix (d ∷ s)

-- /^prefix/, for a prefix that is not empty.
unfoldable pub some_line_starts : Bytes → Bytes → Bool
unfolding start_with lines_after_feed
some_line_starts prefix s = start_with s prefix || lines_after_feed prefix s
