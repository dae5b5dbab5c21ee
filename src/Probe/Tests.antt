-- ===== src/Probe/Tests.antt =====
-- experiments/w2w3/realprobe/main.go: a query for `p1.w2w3.example`, and the behaviours of the runs.
use forwardproxy.Base.{◌≡◌, refl, [], ◌∷◌, List, some, Bytes, codes, equal}
use forwardproxy.Probe.Fixture.{answer, servfail, Table, set_behavior, serve_datagram}
use forwardproxy.Probe.Echoed.{wire}
use forwardproxy.Probe.Answered.{written}

abbrev name_labels : List Bytes
name_labels = codes "P1" ∷ codes "w2w3" ∷ codes "example" ∷ []

abbrev header : Bytes
header = 1 ∷ 0 ∷ 0 ∷ 1 ∷ 0 ∷ 0 ∷ 0 ∷ 0 ∷ 0 ∷ 0 ∷ []

abbrev table : Table
table =
    set_behavior (codes "p1.w2w3.example") (codes "1") (record { kind = answer; delay = 20 })
      (set_behavior (codes "p1.w2w3.example") (codes "28") (record { kind = servfail; delay = 700 })
        [])

replied :
    serve_datagram table (written (7 ∷ 9 ∷ []) header name_labels 0 16 0 1 [])
    ≡ some (
      0,
      7 ∷ 9 ∷ 129 ∷ 128 ∷ 0 ∷ 1 ∷ 0 ∷ 0 ∷ 0 ∷ 0 ∷ 0 ∷ 0 ∷ 2 ∷ 80 ∷ 49 ∷ 4 ∷ 119 ∷ 50 ∷ 119 ∷ 51 ∷ 7
          ∷ 101 ∷ 120 ∷ 97 ∷ 109 ∷ 112 ∷ 108 ∷ 101 ∷ 0 ∷ 0 ∷ 16 ∷ 0 ∷ 1 ∷ [],
    )
unfolding serve_datagram written set_behavior wire equal
replied = refl

answered :
    serve_datagram table
      (written (7 ∷ 9 ∷ []) header (codes "p1" ∷ codes "w2w3" ∷ codes "example" ∷ []) 0 28 0 1 [])
    ≡ some (
      700,
      7 ∷ 9 ∷ 129 ∷ 128 ∷ 0 ∷ 1 ∷ 0 ∷ 0 ∷ 0 ∷ 0 ∷ 0 ∷ 0 ∷ 2 ∷ 112 ∷ 49 ∷ 4 ∷ 119 ∷ 50 ∷ 119 ∷ 51 ∷ 7
          ∷ 101 ∷ 120 ∷ 97 ∷ 109 ∷ 112 ∷ 108 ∷ 101 ∷ 0 ∷ 0 ∷ 28 ∷ 0 ∷ 1 ∷ [],
    )
unfolding serve_datagram written set_behavior wire equal
answered = refl
