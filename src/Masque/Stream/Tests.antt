-- ===== src/Masque/Stream/Tests.antt =====
-- Two writers that wrap each other: the outer one has the stream, the inner one the settings.
use forwardproxy.Base.{ℕ, zero, suc, none, some, ◌≡◌, ◌↔◌, [], ◌∷◌, refl, inr, arith}
use forwardproxy.Masque.Stream.Layers.{Finds, http3_capabilities_iff}
use forwardproxy.Masque.Stream.{Layer, http3_capabilities_from_response_writer}

abbrev circle : ℕ → Layer ℕ ℕ
circle zero = record { streamer = some 5; settings = none; unwrap = some (some 1) }
circle (suc w) = record { streamer = none; settings = some 6; unwrap = some (some 0) }

-- The way from the outer one to the inner one.
found : Finds circle 16 0 none none 5 6
found = record {
  passed = 0 ∷ [];
  last = 1;
  leads = (refl, 1, refl, ground arith, refl);
  within = omega arith;
  lacks = inr refl;
  stream_is = refl;
  settings_are = refl;
}

finds_both : http3_capabilities_from_response_writer circle (some 0) ≡ some (5, 6)
finds_both = (http3_capabilities_iff circle 0 5 6).1 found

http3_capabilities_iff_example :
    (http3_capabilities_from_response_writer circle (some 0) ≡ some (5, 6))
    ↔ Finds circle 16 0 none none 5 6
http3_capabilities_iff_example = http3_capabilities_iff circle 0 5 6
