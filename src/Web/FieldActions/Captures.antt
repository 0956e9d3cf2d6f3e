-- ===== src/Web/FieldActions/Captures.antt =====
-- `useCreateProofField` of apps/web/lib/api/hooks.ts: a proof goes to the server, or into the queue of
-- proofs when nobody answers. `online` is the call of the server.
use ironman.Prelude.{
  ◌≡◌, ◌⊎◌, inl, inr, refl, String, Bool, false, Option, none, some, List, Bool-cases,
}
use ironman.Json.{Json}
use ironman.Exec.{api_error, other_error, Result, ok, err, Exec}
use ironman.Web.Offline.{
  Tables, OfflineProof, OpInput, ProofInput, ProofKind, Browser, SyncAnswer, transaction,
  enqueue_proof,
}

pub record CaptureInput : Type 0 where
  pub job_id : String
  pub kind : ProofKind
  pub file : Option String
  pub otp_verified : Option Bool
  pub geo_lat : Option Json
  pub geo_lng : Option Json

abbrev pub or_unverified : Option Bool → Bool
or_unverified none = false
or_unverified (some b) = b

-- The proof that is queued; its id and time are written by the queue.
abbrev pub queued_proof : CaptureInput → OfflineProof
queued_proof input = record {
  id = "";
  job_id = input.job_id;
  kind = input.kind;
  file = input.file;
  otp_verified = or_unverified input.otp_verified;
  geo_lat = input.geo_lat;
  geo_lng = input.geo_lng;
  queued_at = "";
}

module _ {W Proof : Type 0} (has_database has_storage : Bool) (access : W → Bool × W)
    (tables : Tables) (random_uuid now : W → String × W)
    (offline_sync : String → List OpInput → Exec (Browser W) (List SyncAnswer))
    (create_proof : ProofInput → Exec (Browser W) (Unit {0})) where
  -- `{ proof, queued: !proof }`.
  abbrev pub stored_end : Result OfflineProof → Result (Option Proof)
  stored_end (ok p) = ok none
  stored_end (err t) = err t

  abbrev pub after_upload : CaptureInput → Result Proof → Exec (Browser W) (Option Proof)
  after_upload input (ok proof) s = (ok (some proof), s)
  after_upload input (err (api_error e)) s = (err (api_error e), s)
  after_upload input (err other_error) s =
      let (r, s') =
        enqueue_proof has_database has_storage access tables random_uuid now offline_sync
          create_proof (queued_proof input) s in
      (stored_end r, s')

  unfoldable pub capture_proof :
      CaptureInput → Exec (Browser W) Proof → Exec (Browser W) (Option Proof)
  capture_proof input online s = let (r, s1) = online s in after_upload input r s1

  -- How a capture ends, of what the call of the server came to and the browser it left.
  abbrev pub CapturedAs :
      CaptureInput → Result Proof → Browser W → Result (Option Proof) × Browser W → Type 0
  CapturedAs input (ok proof) s1 x = x ≡ (ok (some proof), s1)
  CapturedAs input (err (api_error e)) s1 x = x ≡ (err (api_error e), s1)
  CapturedAs input (err other_error) s1 x =
      ((x.0 ≡ ok none)
        × (id : String) × (at : String) × (x.1.proofs
            ≡ tables.put_proof (record (queued_proof input) { id = id; queued_at = at }) s1.proofs)
        × (x.1.ops ≡ s1.ops))
      ⊎ ((x.0 ≡ err other_error) × (x.1.proofs ≡ s1.proofs))

  after_upload-CapturedAs :
      (input : CaptureInput) (r : Result Proof) (s1 : Browser W)
      → CapturedAs input r s1 (after_upload input r s1)
  unfolding enqueue_proof transaction
  after_upload-CapturedAs input (ok proof) s1 = refl
  after_upload-CapturedAs input (err (api_error e)) s1 = refl
  after_upload-CapturedAs input (err other_error) s1 =
      let (id, w) = random_uuid s1.world in
      let (at, w') = now w in
      elim (Bool-cases (access w').0) [
        | inl e ↦ rw e (inl (refl, id, at, refl, refl))
        | inr e ↦ rw e (inr (refl, refl))
      ]

  -- How capturing a proof ends: uploaded, or refused by the server, with the queue as the call left it;
  -- queued, when nobody answered; or lost with a throw, when the queue could not be written either.
  pub capture_exact :
      (input : CaptureInput) (online : Exec (Browser W) Proof) (s : Browser W)
      → CapturedAs input (online s).0 (online s).1 (capture_proof input online s)
  unfolding capture_proof
  capture_exact input online s = after_upload-CapturedAs input (online s).0 (online s).1
