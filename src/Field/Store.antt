-- ===== src/Field/Store.antt =====
-- apps/field/lib/kv.ts and apps/field/lib/offline/store.ts: what one rider's phone holds. The four
-- lists stand under the rider's own keys; `device_id` is the phone's. `update` runs inside
-- `exclusive`, so each operation here is one atomic step.

use ironman.Prelude.{
  String, not, Option, none, some, List, [], ◌∷◌, ◌++◌, map, filter, includes, ◌==◌, if◌then◌else◌,
}
use ironman.Field.Types.{JobStatus, JobCard, QueuedOp, QueuedProof, SyncIssue}

-- What `getItem` and `JSON.parse` give for a key: a throw, `null`, or a value.
pub data Stored (A : Type 0) : Type 0 where
  unreadable absent : Stored A
  value : A → Stored A

-- `kv.get`: a throw is caught, and the fallback stands in for it as for a missing key.
unfoldable pub kv_get : {A : Type 0} → A → Stored A → A
kv_get fallback unreadable = fallback
kv_get fallback absent = fallback
kv_get fallback (value a) = a

pub record JobsCache : Type 0 where
  pub jobs : List JobCard
  pub fetched_at : Option String

pub record Phone : Type 0 where
  pub jobs : Stored JobsCache
  pub ops : Stored (List QueuedOp)
  pub proofs : Stored (List QueuedProof)
  pub issues : Stored (List SyncIssue)
  pub device_id : Stored String

-- `update(name, fallback, change)`: read, change, write back.
abbrev pub update : {A : Type 0} → A → (A → A) → Stored A → Stored A
update fallback change slot = value (change (kv_get fallback slot))

abbrev pub no_jobs : JobsCache
no_jobs = record { jobs = []; fetched_at = none }

unfoldable pub load_jobs : Phone → JobsCache
unfolding kv_get
load_jobs p = kv_get no_jobs p.jobs

unfoldable pub save_jobs : List JobCard → String → Phone → Phone
save_jobs jobs fetched_at p = record p {
  jobs = value (record { jobs = jobs; fetched_at = some fetched_at });
}

unfoldable pub with_status : String → JobStatus → JobCard → JobCard
with_status job_id status j = if j.id == job_id then record j { status = status } else j

unfoldable pub patch_job : String → JobStatus → Phone → Phone
unfolding kv_get
patch_job job_id status p = record p {
  jobs =
      update no_jobs (λ cache. record cache { jobs = map (with_status job_id status) cache.jobs })
        p.jobs;
}

unfoldable pub load_ops : Phone → List QueuedOp
unfolding kv_get
load_ops p = kv_get [] p.ops

unfoldable pub add_op : QueuedOp → Phone → Phone
unfolding kv_get
add_op op p = record p { ops = update [] (λ ops. ops ++ op ∷ []) p.ops }

unfoldable pub remove_ops : List String → Phone → Phone
unfolding kv_get
remove_ops ids p = record p {
  ops = update [] (filter (λ o. not (includes ids o.client_op_id))) p.ops;
}

unfoldable pub load_proofs : Phone → List QueuedProof
unfolding kv_get
load_proofs p = kv_get [] p.proofs

unfoldable pub add_proof : QueuedProof → Phone → Phone
unfolding kv_get
add_proof proof p = record p { proofs = update [] (λ all. all ++ proof ∷ []) p.proofs }

unfoldable pub remove_proof : String → Phone → Phone
unfolding kv_get
remove_proof id p = record p { proofs = update [] (filter (λ x. not (x.id == id))) p.proofs }

unfoldable pub load_issues : Phone → List SyncIssue
unfolding kv_get
load_issues p = kv_get [] p.issues

unfoldable pub add_issues : List SyncIssue → Phone → Phone
unfolding kv_get
add_issues found p = record p { issues = update [] (λ all. all ++ found) p.issues }

unfoldable pub dismiss_issue : String → Phone → Phone
unfolding kv_get
dismiss_issue id p = record p { issues = update [] (filter (λ i. not (i.id == id))) p.issues }

-- `deviceId`: the stored id, unless it is missing or empty.
unfoldable pub known_device : Phone → Option String
unfolding kv_get
known_device p = let id = kv_get "" p.device_id in if id == "" then none else some id

unfoldable pub set_device : String → Phone → Phone
set_device id p = record p { device_id = value id }
