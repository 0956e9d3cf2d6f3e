-- ===== src/Web/FieldActions/Tests.antt =====
-- A rider who starts a job with no network, and the flush once there is one.
use ironman.Prelude.{◌≡◌, refl, Bool, true, String, none, some, List, [], ◌∷◌, Has}
use ironman.Exec.{other_error, ok, err, Exec}
use ironman.Field.Types.{pickup, pending, job_start}
use ironman.Web.Offline.{
  otp, OfflineOp, OpInput, ProofInput, Browser, SyncAnswer, transaction, enqueue_op,
  flush_offline_queue,
}
use ironman.Web.Offline.Queue.{key_ordered, put_op-Has}
use ironman.Web.Offline.Kept.{Kept}
use ironman.Web.FieldActions.{Job, JobCaches, ActionEnd, queue_action, run_offline_aware_action}
use ironman.Web.FieldActions.Outcomes.{EndsAs, action_exact}
use ironman.Web.FieldActions.Captures.{CaptureInput}
use ironman.Web.FieldActions.Queued.{offline_action-Kept}

abbrev first_job : Job
first_job = record {
  id = "j";
  route_day = "r";
  order = "o";
  order_ref = "IM-1";
  kind = pickup;
  sequence = 1;
  assigned_to = none;
  assigned_to_name = "";
  status = pending;
  slot_start = none;
  slot_end = none;
  started_at = none;
  arrived_at = none;
  completed_at = none;
  attempt_no = 1;
}

abbrev shown_jobs : JobCaches
shown_jobs = record { jobs = ("j", first_job) ∷ []; my_jobs = (none, first_job ∷ []) ∷ [] }

abbrev empty : Browser (Unit {0})
empty = record { ops = []; proofs = []; device = some "d"; world = tt }

abbrev works : Unit {0} → Bool × Unit {0}
works w = (true, w)

abbrev a_text : Unit {0} → String × Unit {0}
a_text w = ("a", w)

abbrev no_answers : String → List OpInput → Exec (Browser (Unit {0})) (List SyncAnswer)
no_answers device inputs s = (ok [], s)

abbrev take_proof : ProofInput → Exec (Browser (Unit {0})) (Unit {0})
take_proof p s = (ok tt, s)

-- Nobody answers.
abbrev unanswered : Exec (Browser (Unit {0})) Job
unanswered s = (err other_error, s)

abbrev end : ActionEnd
end = record { job = none; queued = true }

abbrev after_tap : Browser (Unit {0})
after_tap =
    (run_offline_aware_action true true works key_ordered a_text a_text no_answers take_proof
      job_start "j" [] unanswered empty).1

tap_queued :
    run_offline_aware_action true true works key_ordered a_text a_text no_answers take_proof
      job_start "j" [] unanswered empty
    ≡ (ok end, after_tap)
unfolding run_offline_aware_action queue_action enqueue_op transaction
tap_queued = refl

action_exact_example :
    EndsAs true true works key_ordered a_text a_text no_answers take_proof job_start "j" []
      (err other_error)
      empty
      (run_offline_aware_action true true works key_ordered a_text a_text no_answers take_proof
        job_start "j" [] unanswered empty)
action_exact_example =
    action_exact true true works key_ordered a_text a_text no_answers take_proof job_start "j" []
      unanswered empty

offline_action-Kept_example :
    (op : OfflineOp) × (op.job_id ≡ "j")
    × (op.op_type ≡ job_start)
    × Has op after_tap.ops
    × Kept true true works key_ordered a_text a_text no_answers take_proof op after_tap
        (flush_offline_queue true true works key_ordered a_text a_text no_answers take_proof
          after_tap).1
offline_action-Kept_example =
    offline_action-Kept true true works key_ordered a_text a_text no_answers take_proof put_op-Has
      (λ op d i s has. has) (λ op p s has. has) job_start "j" [] unanswered empty empty after_tap
      end refl tap_queued

abbrev otp_taken : CaptureInput
otp_taken = record {
  job_id = "j";
  kind = otp;
  file = none;
  otp_verified = some true;
  geo_lat = none;
  geo_lng = none;
}

-- Nobody answers a capture either.
abbrev lost_upload : Exec (Browser (Unit {0})) String
lost_upload s = (err other_error, s)
