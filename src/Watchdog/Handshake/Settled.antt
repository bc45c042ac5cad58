-- ===== src/Watchdog/Handshake/Settled.antt =====
-- The monitor's request, through one iteration of the trainer, to the monitor's next poll.
use mc_mjlab.Prelude.{
  ℕ, String, Bool, true, false, Option, none, some, if◌then◌else◌, ◌==◌, ◌≡◌, ap, ◌∙◌, arith,
  eq_iff,
}
use mc_mjlab.Json.{Host}
use mc_mjlab.Watchdog.Health.{rank}
use mc_mjlab.Watchdog.Runner.{Response, Runner, returned, save_failed}
use mc_mjlab.Watchdog.Runner.Requests.{Rollout, checkpoint_path, complete_iteration}
use mc_mjlab.Watchdog.Runner.Requests.Found.{found}
use mc_mjlab.Watchdog.Runner.Requests.Answered.{ending_of, reply, IsNew, complete_iteration-reply}
use mc_mjlab.Watchdog.Monitor.{Request, Monitor, response_for, settle, take_response}

module _ {W : Type 0} (host : Host W) (save_ok : String → Bool) where
  -- what the monitor makes of a reply
  take_response-reply :
      (q : Request) (i : ℕ) (r : Runner W) (m : Monitor W)
      → response_for (found r) (some q) ≡ none
      → take_response (some q) (response_for (reply host save_ok q i r) (some q)) m ≡ (
          if r.distributed
          then settle q false m
          else if save_ok (checkpoint_path host save_ok r i)
          then settle q true m
          else m)
  unfolding take_response response_for
  take_response-reply q i r m h = ground (arith, eq_iff q.request_id q.request_id)

  -- The next iteration of a publishing trainer settles the request that the monitor has out, if it
  -- has not served it: a distributed trainer has it rejected and goes on; otherwise it is
  -- acknowledged as soon as the checkpoint is written, and the trainer stops exactly on a stop; if
  -- writing the checkpoint fails, training fails and the request stays out.
  pub complete_iteration_settles :
      (q : Request) (text : String) (o : Rollout W) (now : W) (r : Runner W) (m : Monitor W)
      → r.enabled ≡ true
      → IsNew host save_ok q text r
      → response_for (found r) (some q) ≡ none
      → let t = complete_iteration host save_ok o (some text) now r in
        let path = checkpoint_path host save_ok r o.rollout_iteration in
        (take_response (some q) (response_for (found t.1) (some q)) m ≡ (
          if r.distributed then settle q false m else if save_ok path then settle q true m else m))
        × (t.0 ≡ (
            if r.distributed
            then returned
            else if save_ok path
            then ending_of (rank q.action == 3)
            else save_failed))
  complete_iteration_settles q text o now r m on new unanswered =
      let t = complete_iteration-reply host save_ok q text o now r on new in
      (
        ap (λ (x : Option Response). take_response (some q) (response_for x (some q)) m) t.1
            ∙ take_response-reply q o.rollout_iteration r m unanswered,
        t.0,
      )
