-- ===== src/Http/Message/Total.antt =====
-- request.inl, response.inl: the parts of a message are no longer than the message, and cutting it ends.
use cppio.Common.{
  ◌≤◌, ◌≡◌, ◌≢◌, arith, length, value, diverge, >>=-eq-value, ◌==◌, Bool-cases, inl, inr,
}
use cppio.Common.Text.{Bytes, npos, add64, sub64, substr, find, find_first_of}
use cppio.Common.Searches.{length-substr}
use cppio.Http.{line_end, block_end}
use cppio.Http.Message.{split_head, split_line, split_view}

pub split_head-ne-diverge : (text : Bytes) → split_head text ≢ diverge
unfolding split_head substr
split_head-ne-diverge text h = ground arith

pub split_line-ne-diverge : (text : Bytes) → split_line text ≢ diverge
unfolding split_line substr
split_line-ne-diverge text h = ground arith

length_view :
    (view line headers : Bytes)
    → split_view view ≡ value (line, headers)
    → (length line ≤ length view) × (length headers ≤ length view)
unfolding split_view
length_view view line headers h = elim (Bool-cases (find view line_end == npos)) [
  | inl missing ↦ absurd (let e = rw missing at h in cc e)
  | inr found ↦
      let k = rw found at h in
      let (x, s1, h1) = >>=-eq-value (substr view 0 (find view line_end)) _ k in
      let (y, s2, h2) = >>=-eq-value (substr view (add64 (find view line_end) 2) npos) _ h1 in
      ground (arith, length-substr view 0 _ s1, length-substr view _ npos s2, h2)
]

pub length-split_head :
    (text line headers : Bytes)
    → split_head text ≡ value (line, headers)
    → (length line ≤ length text) × (length headers ≤ length text)
unfolding split_head
length-split_head text line headers h =
    let (view, s1, h1) = >>=-eq-value (substr text 0 (find text block_end)) _ h in
    ground (arith, length-substr text 0 _ s1, length_view view line headers h1)

pub length-split_line :
    (text a b c : Bytes) → split_line text ≡ value (a, b, c) → length b ≤ length text
unfolding split_line
length-split_line text a b c h =
    let first = find_first_of text b' ' 0 in
    let second = find_first_of text b' ' (add64 first 1) in
    let (x, s1, h1) = >>=-eq-value (substr text 0 first) _ h in
    let (y, s2, h2) =
      >>=-eq-value (substr text (add64 first 1) (sub64 (sub64 second first) 1)) _ h1 in
    let (z, s3, h3) = >>=-eq-value (substr text (add64 second 1) npos) _ h2 in
    ground (arith, length-substr text (add64 first 1) _ s2, h3)
