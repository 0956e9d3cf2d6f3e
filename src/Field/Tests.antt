-- ===== src/Field/Tests.antt =====
-- Runs of the field app's offline core on small inputs, and the theorems at such inputs.
use ironman.Prelude.{
  ℕ, String, ◌≡◌, refl, inl, inr, true, false, none, some, List, [], ◌∷◌, ◌++◌, map, Has, arith,
  length, nat_eq, if◌then◌else◌, text_leb, suc, ◌≢◌, ◌↔◌, eq_iff, Bool-cases,
}
use ironman.Exec.{Thrown, api_error, other_error, Result, ok, err, Ends, try_catch, ◌>>=◌}
use ironman.Field.Rules
use ironman.Field.Store
use ironman.Field.Sync
use ironman.Field.Sync.Steps
use ironman.Field.Sync.Flush
use ironman.Field.Types.{
  JobStatus, pending, en_route, arrived, done, pickup, JobCard, OpType, job_start, job_arrive,
  QueuedOp, SyncIssue, applied, OfflineOpResult,
}
use ironman.Field.Rules.{
  Order, before, same, after, next_status, is_finished, replay_status, effective_jobs, split_day,
  compare_jobs, compare_numbers, is_relevant,
}
use ironman.Field.Rules.Transitions.{Reaches, replay_status-Reaches}
use ironman.Field.Rules.Effective.{plain_view, effective_jobs-eq-plain}
use ironman.Field.Rules.Comparator.{
  IsComparator, compare_numbers-IsComparator, pullback-IsComparator,
}
use ironman.Field.Rules.Day.{split_day-exact}
use ironman.Field.Store.{Phone, Stored, absent, value, load_ops, load_issues, load_jobs}
use ironman.Field.Sync.{
  Env, Run, SyncBody, SyncOp, SyncSummary, empty_summary, Arrival, new_op, read, catch_up,
}
use ironman.Field.Sync.Flush.{flush}
use ironman.Field.Sync.Kept.{Kept}
use ironman.Field.Sync.Safety.{flush_never_drops, flush_keeps_issues}
use ironman.Field.Sync.Waiting.{IsReachable, Replies}
use ironman.Field.Sync.Completes.{flush_drains}
use ironman.Field.Sync.View.{applied_view_steady}
use ironman.Field.Engine
use ironman.Field.Engine.{enqueue}
use ironman.Field.Engine.Queue.{IsTap, Added, after_reads, judged, enqueue_exact}
use ironman.Field.Engine.Passes.{
  count, launch, requested, one_flush_at_a_time, ask_times, requests_make_one_pass,
}

abbrev job : String → ℕ → JobStatus → JobCard
job id sequence status = record {
  id = id;
  route_day = "r1";
  date = "2026-10-07";
  order = "o1";
  order_ref = "IM-1";
  order_status = "PICKUP_ASSIGNED";
  payment_status = "UNPAID";
  kind = pickup;
  sequence = sequence;
  status = status;
  slot_start = none;
  slot_end = none;
  attempt_no = 1;
  customer_name = "A";
  customer_phone = "+919876543210";
  apartment_name = "B";
  address = "C";
  special_instructions = "";
  lines = [];
  bag_count = 0;
}

abbrev action : String → OpType → QueuedOp
action id op_type = record {
  client_op_id = id;
  op_type = op_type;
  job_id = "j1";
  payload = [];
  client_ts = "t";
}

abbrev start_j1 : QueuedOp
start_j1 = action "a" job_start

abbrev arrive_j1 : QueuedOp
arrive_j1 = action "b" job_arrive

-- What a run computes with.
run_steps : Unit {0}
unfolding flush load_ops load_jobs ◌>>=◌ read catch_up Steps.device_id Steps.write Steps.change_slot
    Store.known_device Store.add_op Store.patch_job Store.with_status Store.remove_ops
    Store.save_jobs Store.load_proofs Flush.send_rounds Flush.send_batch Flush.send_singly
    Flush.send_one Flush.after_post Flush.attempt Flush.send_queue Flush.photos_step
    Flush.refresh_step Flush.unless_offline Flush.refresh_jobs Flush.count_remaining
    Flush.send_photos Flush.go_offline Steps.post_batch Steps.settle_batch Steps.settle_all
    Steps.settle_as Steps.settle_found Steps.settle_or_leave Steps.patch_moved Steps.patch_to
    Steps.note_applied Steps.save_found Steps.summarise Sync.result_for Sync.sync_op
    Sync.is_final_refusal Sync.arrive Sync.catch_up_from next_status try_catch
run_steps = tt

-- What the view of the jobs computes with.
view_steps : Unit {0}
unfolding effective_jobs Rules.effective_job replay_status Rules.ops_of Rules.by_job
    Rules.add_to_group Rules.moved next_status
view_steps = tt

effective_started :
    map
      (λ j. j.status)
      (effective_jobs (job "j1" 1 pending ∷ job "j2" 2 pending ∷ []) (start_j1 ∷ arrive_j1 ∷ []))
    ≡ arrived ∷ pending ∷ []
unfolding view_steps
effective_started = refl

-- Counting down from a fixed answer, with no state of its own.
abbrev all_applied : SyncBody → List OfflineOpResult
all_applied body =
    map
      (λ o. record {
        client_op_id = o.client_op_id;
        op_type = "";
        status = applied;
        result_detail = "";
      })
      body.ops

abbrev online : Env (Unit {0})
online = record {
  post = λ path body w. (ok (all_applied body), w);
  fetch_jobs = λ w. (ok (job "j1" 1 arrived ∷ []), w);
  upload_proof = λ proof w. (ok tt, w);
  discard_file = λ uri w. (ok tt, w);
  new_id = λ w. ("id", w);
  now = λ w. ("now", w);
  get_item = λ w. (true, w);
  set_item = λ w. (ok tt, w);
}

abbrev unreachable : Env (Unit {0})
unreachable = record online { post = λ path body w. (err other_error, w) }

abbrev phone : Phone
phone = record {
  jobs = value (record { jobs = job "j1" 1 pending ∷ []; fetched_at = none });
  ops = value (start_j1 ∷ []);
  proofs = absent;
  issues = absent;
  device_id = value "d";
}

abbrev begin : Run (Unit {0})
begin = record {
  phone = phone;
  summary = empty_summary;
  arrivals = [] ∷ [] ∷ (new_op arrive_j1 ∷ []) ∷ [];
  wire = [];
  world = tt;
}

-- The action tapped during the run stays, the one that the server applied goes.
flush-online : map (λ o. o.client_op_id) (load_ops (flush online begin).1.phone) ≡ "b" ∷ []
unfolding run_steps
flush-online = refl

flush-unreachable :
    map (λ o. o.client_op_id) (load_ops (flush unreachable begin).1.phone) ≡ "a" ∷ "b" ∷ []
unfolding run_steps
flush-unreachable = refl

flush_never_drops_example : Kept start_j1 (flush unreachable begin).1
unfolding load_ops
flush_never_drops_example =
    flush_never_drops unreachable (λ w. refl) begin start_j1 (inl (inl refl))

abbrev issue : SyncIssue
issue = record { id = "i"; job_id = "j1"; order_ref = "IM-1"; what = "w"; message = "m"; at = "t" }

abbrev with_issue : Run (Unit {0})
with_issue = record begin { phone = record phone { issues = value (issue ∷ []) } }

flush_keeps_issues_example : Has issue (load_issues (flush online with_issue).1.phone)
unfolding load_issues
flush_keeps_issues_example = flush_keeps_issues online (λ w. refl) with_issue issue (inl refl)

-- A server that refuses the batch of both actions for good, and the second alone, and applies the first.
abbrev bad_request : Thrown
bad_request = api_error (record {
  status = 400;
  code = "validation_error";
  message = "Bad request";
  detail = none;
  field_errors = [];
  request_id = "";
  retryable = false;
})

abbrev picky_reply : SyncBody → Result (List OfflineOpResult)
picky_reply body = if nat_eq (length body.ops) 1 then ok (all_applied body) else err bad_request

abbrev picky : Env (Unit {0})
picky = record online { post = λ path body w. (picky_reply body, w) }

all_applied-answers :
    (ops : List SyncOp) (o : SyncOp)
    → Has o ops
    → Sync.result_for
        (map
          (λ x. record {
            client_op_id = x.client_op_id;
            op_type = "";
            status = applied;
            result_detail = "";
          })
          ops)
        o.client_op_id
      ≢ none
unfolding Sync.result_for
all_applied-answers [] o h = absurd h
all_applied-answers (x ∷ ops) o (inl e) = ground (arith, eq_iff x.client_op_id o.client_op_id)
all_applied-answers (x ∷ ops) o (inr h) = ground (arith, all_applied-answers ops o h)

picky-IsReachable : IsReachable picky
unfolding Sync.is_final_refusal
picky-IsReachable = record {
  looks = λ w. refl;
  stores = λ w. refl;
  replies = λ path body w. reply body;
}
  where
    reply : (body : SyncBody) → Replies body (picky_reply body)
    reply body = elim (Bool-cases (nat_eq (length body.ops) 1)) [
      | inl e ↦ rw e (all_applied-answers body.ops)
      | inr e ↦ rw e refl
    ]

abbrev both_queued : Run (Unit {0})
both_queued = record begin {
  phone = record phone { ops = value (start_j1 ∷ arrive_j1 ∷ []) };
  arrivals = [];
}

flush_drains_example :
    Ends
      (λ summary s. (summary.remaining_ops ≡ 0) × (load_ops s.phone ≡ []))
      (λ s. load_ops s.phone ≡ [])
      (flush picky both_queued)
flush_drains_example = flush_drains picky picky-IsReachable both_queued refl

replay_status-Reaches_example : Reaches pending (replay_status pending (start_j1 ∷ arrive_j1 ∷ []))
replay_status-Reaches_example = replay_status-Reaches pending (start_j1 ∷ arrive_j1 ∷ [])

abbrev two_jobs : List JobCard
two_jobs = job "j1" 2 pending ∷ job "j2" 1 done ∷ []

effective_jobs-eq-plain_example :
    effective_jobs two_jobs (start_j1 ∷ []) ≡ map (plain_view (start_j1 ∷ [])) two_jobs
effective_jobs-eq-plain_example = effective_jobs-eq-plain two_jobs (start_j1 ∷ [])

-- How many characters there are.
abbrev size : String → ℕ
size String.[] = 0
size (String.◌∷◌ c s) = suc (size s)

-- A collation by size.
abbrev by_size : String → String → Order
by_size s t = compare_numbers (size s) (size t)

by_size-IsComparator : IsComparator by_size
by_size-IsComparator = pullback-IsComparator size compare_numbers-IsComparator

split_day-exact_example :
    let d = split_day by_size two_jobs "2026-10-07" in
    (Has (job "j2" 1 done) d.todo
      ↔ Has (job "j2" 1 done) two_jobs
        × (is_finished done ≡ false)
        × (text_leb "2026-10-07" "2026-10-07" ≡ true))
    × (Has (job "j2" 1 done) d.done_jobs
        ↔ Has (job "j2" 1 done) two_jobs
          × (is_finished done ≡ true)
          × (◌≡◌ {A = String} "2026-10-07" "2026-10-07"))
split_day-exact_example = split_day-exact by_size two_jobs "2026-10-07" (job "j2" 1 done)

applied_view_steady_example :
    let patched = map (Store.with_status "j1" en_route) two_jobs in
    (effective_jobs patched (start_j1 ∷ arrive_j1 ∷ [])
      ≡ effective_jobs two_jobs (start_j1 ∷ arrive_j1 ∷ []))
    × (effective_jobs patched (arrive_j1 ∷ [])
        ≡ effective_jobs two_jobs (start_j1 ∷ arrive_j1 ∷ []))
unfolding next_status
applied_view_steady_example =
    applied_view_steady start_j1 en_route [] (arrive_j1 ∷ []) tt two_jobs
      (λ e. refl, (λ e. ground (arith, eq_iff "j2" "j1"), tt))

-- A tap, and another one that comes in after it has been judged.
abbrev double_tap : Run (Unit {0})
double_tap = record begin { arrivals = [] ∷ [] ∷ (new_op (action "b" job_arrive) ∷ []) ∷ [] }

enqueue_exact_example :
    ((next : JobStatus)
      → next_status (judged online (job "j1" 1 pending) job_arrive [] double_tap) job_arrive
        ≡ some next
      → (op : QueuedOp) × IsTap online (job "j1" 1 pending) job_arrive [] op
        × Added online
            (job "j1" 1 pending)
            job_arrive
            []
            op
            (Sync.catch_up (after_reads online (job "j1" 1 pending) job_arrive [] double_tap)).phone
            (enqueue online (job "j1" 1 pending) job_arrive [] double_tap)
        × (load_ops (
              Store.add_op op
                (Sync.catch_up
                  (after_reads online (job "j1" 1 pending) job_arrive [] double_tap)).phone)
            ≡ load_ops
                (Sync.catch_up
                  (after_reads online (job "j1" 1 pending) job_arrive [] double_tap)).phone
              ++ op ∷ []))
    × (next_status (judged online (job "j1" 1 pending) job_arrive [] double_tap) job_arrive ≡ none
        → enqueue online (job "j1" 1 pending) job_arrive [] double_tap
          ≡ (ok tt, after_reads online (job "j1" 1 pending) job_arrive [] double_tap))
enqueue_exact_example =
    enqueue_exact online (job "j1" 1 pending) job_arrive [] double_tap (λ w. refl)

-- Both taps were judged by a queue without the other, so the action is queued twice.
queued_twice :
    map
      (λ o. o.op_type)
      (load_ops (enqueue online (job "j1" 1 pending) job_arrive [] double_tap).1.phone)
    ≡ job_start ∷ job_arrive ∷ job_arrive ∷ []
unfolding run_steps view_steps enqueue Engine.add_if Engine.judged_status Engine.cached_job
queued_twice = refl

abbrev asked_once : Engine.Engine
asked_once = record Engine.idle { running = true; syncing = true }

one_flush_at_a_time_example :
    let e = (Engine.step Engine.idle Engine.request).0 in
    (1 ≡ count e.running) × (e.syncing ≡ e.running)
unfolding Engine.step
one_flush_at_a_time_example = one_flush_at_a_time (requested launch)

requests_make_one_pass_example :
    let asked_e = ask_times 2 asked_once in
    let next = Engine.step asked_e (Engine.flushed false) in
    (next.1 ≡ true)
    × ((Engine.step next.0 (Engine.flushed false)).1 ≡ false)
    × ((Engine.step asked_e (Engine.flushed true)).1 ≡ false)
    × ((Engine.step asked_e Engine.threw).1 ≡ false)
requests_make_one_pass_example = requests_make_one_pass 1 asked_once refl
