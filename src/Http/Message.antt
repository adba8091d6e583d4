-- ===== src/Http/Message.antt =====
-- cppio/network/http/request.inl and response.inl: what both `create` functions do first. They cut
-- the text at the blank line, take the first line off, and part that line at its first two blanks.
pub mod Parts
pub mod Total
use cppio.Common.{◌==◌, if◌then◌else◌, Outcome, value, error, invalid_argument, ◌>>=◌}
use cppio.Common.Text.{Bytes, npos, add64, sub64, substr, find, find_first_of}
use cppio.Http.{line_end, block_end}

-- What stands before the blank line is parted at its first `\r\n`.
unfoldable pub split_view : Bytes → Outcome (Bytes × Bytes)
split_view current_view = do
  let http_pos = find current_view line_end
  if http_pos == npos then error invalid_argument else do
    http_line ← substr current_view 0 http_pos
    headers ← substr current_view (add64 http_pos 2) npos
    value (http_line, headers)

-- The first line, and the header lines behind it.
unfoldable pub split_head : Bytes → Outcome (Bytes × Bytes)
unfolding split_view
split_head text = do
  let pos = find text block_end
  current_view ← substr text 0 pos
  split_view current_view

-- The text before the first blank, that between the first two, and that behind the second; where a
-- blank is missing, `npos + 1` is 0.
unfoldable pub split_line : Bytes → Outcome (Bytes × Bytes × Bytes)
split_line http_line = do
  let first_pos = find_first_of http_line b' ' 0
  let second_pos = find_first_of http_line b' ' (add64 first_pos 1)
  first ← substr http_line 0 first_pos
  second ← substr http_line (add64 first_pos 1) (sub64 (sub64 second_pos first_pos) 1)
  third ← substr http_line (add64 second_pos 1) npos
  value (first, second, third)
