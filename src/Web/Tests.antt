-- ===== src/Web/Tests.antt =====
-- The console's permissions at concrete roles, and a flush of a concrete browser's queue.
use ironman.Prelude.{◌≢◌, ◌≡◌, refl, true, false, Bool, String, inl, inr, some, List, [], ◌∷◌}
use ironman.Exec.{ok, Exec, ◌>>=◌}
use ironman.Field.Types.{job_start}
use ironman.Web.Offline.{
  OfflineOp, OpInput, ProofInput, Browser, SyncAnswer, applied, transaction, list_ops, list_proofs,
  remove_queued, answer_for, tally_ops, after_sync, flush_ops, flush_proofs, flush_offline_queue,
}
use ironman.Web.Offline.Queue.{key_ordered}
use ironman.Web.Offline.Kept.{Kept, flush_offline_queue-keeps}
use ironman.Web.Offline.Returns.{Returns, flush_offline_queue-Returns}
use ironman.Web.Middleware.{
  PageRequest, redirect, middleware, to_canonical_domain, vercel_production_host, console_host,
  public_host,
}
use ironman.Web.Middleware.Routes.{redirects_once}
use ironman.Web.Client.{Deployment}
use ironman.Web.Permissions.{field, operator, Roles}

-- A rider who also runs a store.
abbrev both : Roles
both = some (field ∷ operator ∷ [])

-- A browser with one operation and one proof, whose world counts nothing.
abbrev taken : OfflineOp
taken = record {
  client_op_id = "b";
  op_type = job_start;
  job_id = "j";
  payload = [];
  client_ts = "t";
  queued_at = "q";
}

abbrev earlier : OfflineOp
earlier = record taken { client_op_id = "c" }

abbrev queue : List OfflineOp
queue = taken ∷ earlier ∷ []

abbrev browser : Browser (Unit {0})
browser = record { ops = queue; proofs = []; device = some "d"; world = tt }

abbrev works : Unit {0} → Bool × Unit {0}
works w = (true, w)

abbrev fails : Unit {0} → Bool × Unit {0}
fails w = (false, w)

abbrev fresh_text : Unit {0} → String × Unit {0}
fresh_text w = ("a", w)

abbrev answer_b : List SyncAnswer
answer_b =
    record { client_op_id = "b"; op_type = "job.start"; status = applied; result_detail = "" } ∷ []

-- The server answers for one of the two operations.
abbrev server : String → List OpInput → Exec (Browser (Unit {0})) (List SyncAnswer)
server device inputs s = (ok answer_b, s)

abbrev accept : ProofInput → Exec (Browser (Unit {0})) (Unit {0})
accept p s = (ok tt, s)

after_run :
    Browser.ops
      (flush_offline_queue true true works key_ordered fresh_text fresh_text server accept
        browser).1
    ≡ earlier ∷ []
unfolding flush_offline_queue list_ops list_proofs transaction flush_ops after_sync tally_ops
    answer_for remove_queued flush_proofs ◌>>=◌
after_run = refl

flush_offline_queue-keeps_example :
    Kept true true works key_ordered fresh_text fresh_text server accept earlier browser
      (flush_offline_queue true true works key_ordered fresh_text fresh_text server accept
        browser).1
flush_offline_queue-keeps_example =
    flush_offline_queue-keeps true true works key_ordered fresh_text fresh_text server accept
      earlier browser (λ d i s has. has) (λ p s has. has) (inr (inl refl))

flush_offline_queue-Returns_example :
    Returns
      (flush_offline_queue true true works key_ordered fresh_text fresh_text server accept
        browser).0
flush_offline_queue-Returns_example =
    flush_offline_queue-Returns true true works key_ordered fresh_text fresh_text server accept
      (λ w. refl) browser

-- A visitor of the deployment's own address, and what its first answer is.
abbrev visit : PageRequest
visit = record { host = some vercel_production_host; pathname = "/book"; search = "?a=1" }

visit_redirected : middleware visit ≡ redirect public_host "/book?a=1"
unfolding middleware to_canonical_domain
visit_redirected = refl

redirects_once_example :
    middleware (record { host = some public_host; pathname = "/book"; search = "?a=1" })
    ≢ redirect console_host "/book"
redirects_once_example =
    redirects_once visit public_host "/book?a=1" visit_redirected "/book" "?a=1" console_host
      "/book"

-- A browser at the real address.
abbrev deployed : Deployment
deployed = record { public_url = some "https://api.test/api/v1"; in_browser = true }
