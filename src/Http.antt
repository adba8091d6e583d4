-- ===== src/Http.antt =====
-- cppio/network/http/http.hpp: the separators of a message. The children model the HTTP layer:
-- Method (method.hpp), Encoding (encoding.inl), Headers (header_map.inl), Request (request.inl) and
-- Response (response.inl), with their theorems in modules below them.
pub mod Method
pub mod Encoding
pub mod Headers
pub mod Message
pub mod Response
pub mod Request
use cppio.Common.{[], ◌∷◌}
use cppio.Common.Text.{Bytes}

abbrev pub line_end : Bytes
line_end = b'\r' ∷ b'\n' ∷ []

abbrev pub block_end : Bytes
block_end = b'\r' ∷ b'\n' ∷ b'\r' ∷ b'\n' ∷ []
