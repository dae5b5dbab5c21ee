-- ===== src/Masque/Stream.antt =====
-- native_udp_stream.go: the search through the response writers that wrap each other. A writer is a
-- number, and what the server makes of each is an argument, so that writers may wrap in a circle.
pub mod Layers
mod Tests
use forwardproxy.Base.{
  ℕ, zero, suc, Bool, true, false, ◌&&◌, Option, none, some, ◌==◌, if◌then◌else◌,
}

-- What the type assertions on a writer give, and its `Unwrap`: `none` where it has no such method,
-- `some none` where that returns nil. `S` and `T` are the types of the two interfaces.
pub record Layer (S T : Type 0) : Type 0 where
  pub streamer : Option S
  pub settings : Option T
  pub unwrap : Option (Option ℕ)

abbrev pub max_depth : ℕ
max_depth = 16

abbrev pub latest : {A : Type 0} → Option A → Option A → Option A
latest none old = old
latest (some a) old = some a

-- The writer that the loop goes on with; `none` is its `break`.
unfoldable pub next_writer : ℕ → Option (Option ℕ) → Option ℕ
next_writer w none = none
next_writer w (some none) = none
next_writer w (some (some next)) = if next == w then none else some next

module _ {S T : Type 0} (layers : ℕ → Layer S T) where
  both : Option S → Option T → Option (S × T) → Option (S × T)
  both (some s) (some t) otherwise = some (s, t)
  both _ _ otherwise = otherwise

  -- The loop, with the depth that is left; a nil writer is `none`.
  unfoldable pub search : ℕ → Option ℕ → Option S → Option T → Option (S × T)
  unfolding both next_writer
  search zero w s t = none
  search (suc depth) none s t = none
  search (suc depth) (some w) s t =
      let s' = latest (layers w).streamer s in
      let t' = latest (layers w).settings t in
      both s' t' (search depth (next_writer w (layers w).unwrap) s' t')

  -- `http3CapabilitiesFromResponseWriter`, `none` for its error.
  unfoldable pub http3_capabilities_from_response_writer : Option ℕ → Option (S × T)
  unfolding search
  http3_capabilities_from_response_writer w = search max_depth w none none

  stream_of : {K : Type 0} → (S → K) → Option (S × T) → Option K
  stream_of http_stream none = none
  stream_of http_stream (some (s, t)) = some (http_stream s)

  -- `http3StreamFromResponseWriter`; `http_stream` is `HTTPStream`.
  unfoldable pub http3_stream_from_response_writer : {K : Type 0} → (S → K) → Option ℕ → Option K
  unfolding stream_of http3_capabilities_from_response_writer
  http3_stream_from_response_writer http_stream w =
      stream_of http_stream (http3_capabilities_from_response_writer w)
