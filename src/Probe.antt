-- ===== src/Probe.antt =====
-- experiments/w2w3/realprobe/main.go: the name server of the dial experiment.
mod Fixture
mod Echoed
mod Answered
mod Tests
