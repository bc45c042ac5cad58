-- ===== src/Tests/Handshake.antt =====
-- A stop request of the monitor, written, served by the trainer and taken up again.
use mc_mjlab.Prelude.{true, none, some, [], pos, ◌≡◌, refl}
use mc_mjlab.Float.{Milli}
use mc_mjlab.Json.{Host}
use mc_mjlab.Watchdog.Health.{Level}
use mc_mjlab.Watchdog.Runner.{watchdog_stop}
use mc_mjlab.Watchdog.Runner.Requests.{complete_iteration}
use mc_mjlab.Watchdog.Runner.Requests.Found.{found}
use mc_mjlab.Watchdog.Runner.Requests.Answered.{IsNew}
use mc_mjlab.Watchdog.Monitor.{Request, Monitor, response_for, settle, take_response}
use mc_mjlab.Watchdog.Handshake.{request_document}
use mc_mjlab.Watchdog.Handshake.Settled.{complete_iteration_settles}
use mc_mjlab.Tests.Hosts.{machine}
use mc_mjlab.Tests.Watchdog.{trainer, rollout}
use mc_mjlab.Tests.Monitor.{start}

abbrev asked : Request
asked = record { request_id = "q1"; action = Level.stop }

-- a machine on which request.json holds the monitor's document
abbrev receiver : Host Milli
receiver = record machine { loads = λ s. some (request_document asked [] (some 1) (pos 42)) }

abbrev waiting : Monitor Milli
waiting = record start { pending_request = some asked }

asked-IsNew : IsNew receiver (λ p. true) asked "request" trainer
asked-IsNew = record {
  asks = refl;
  named = refl;
  not_served = refl;
  reasons = [];
  asked_at = some 1;
  asked_by = pos 42;
  parses = refl;
}

nothing_found : response_for (found trainer) (some asked) ≡ none
unfolding response_for
nothing_found = refl

complete_iteration_settles_example :
    let t = complete_iteration receiver (λ p. true) rollout (some "request") (some 0) trainer in
    (take_response (some asked) (response_for (found t.1) (some asked)) waiting
      ≡ settle asked true waiting)
    × (t.0 ≡ watchdog_stop)
complete_iteration_settles_example =
    complete_iteration_settles receiver (λ p. true) asked "request" rollout (some 0) trainer waiting
      refl asked-IsNew nothing_found
