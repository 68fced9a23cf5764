-- ===== src/Protocol/Session/Closed.antt =====
-- The calls of session.rs make eight kinds of updates: a predicate that these keep, every call keeps.
use fieldnotes.Prelude.{
  ℕ, ◌+◌, ◌≤◌, ◌≡◌, refl, Text, Bool, true, false, Option, none, some, List, [], ◌∷◌, if◌then◌else◌,
}
use fieldnotes.Protocol.Codes.{RejectionCode, Result, ok, err}
use fieldnotes.Protocol.Message.{
  FieldEvent, RecordEvent, CheckpointEvent, DiagnosticEvent, manifest_event, record_event,
  checkpoint_event, diagnostic_event,
}
use fieldnotes.Protocol.Session.State.{Session, CheckpointOffer, CommittedCursor, continue}
use fieldnotes.Protocol.Session.Records.{
  Serde, AcceptedRecord, RecordDisposition, install_record, install_diagnostic, accept_record,
  accept_diagnostic,
}
use fieldnotes.Protocol.Session.Checkpoints.{install_offer, accept_checkpoint}
use fieldnotes.Protocol.Session.Commit.{
  commit, advance_cursor, withhold, record_durable, note_rejection, first_undurable_through,
}
use fieldnotes.Protocol.Session.Decisions.{
  Decided, commit-Decided, unknown, drops, waits, goes_back,
}
use fieldnotes.Protocol.Session.Commit.{CommitResult}
use fieldnotes.Protocol.Message.{Severity}
use fieldnotes.Protocol.Session.Outcomes.{
  halt, at_seq, Starts, Recorded, accept_record-Recorded, recorded, unencoded,
}
use fieldnotes.Protocol.Session.Offers.{
  with_claim, Covers, Checkpointed, accept_checkpoint-Checkpointed, Diagnosed,
  accept_diagnostic-Diagnosed, offered, diagnosed,
}
use fieldnotes.Protocol.Message.{ArtifactRef}
use fieldnotes.Protocol.Codes as Codes
use fieldnotes.Protocol.Artifact.{Staging, ArtifactOutcome, resolved, declined, resolve_artifact}
use fieldnotes.Protocol.Session.State.{M, ◌>>=◌, ◌>>◌, is_some, fail_if}
use fieldnotes.Protocol.Session.Artifacts.{
  charge, resolve_reference, resolve_references, resolve_artifacts,
}
use fieldnotes.Protocol.Session.Steps.{
  Call, accepts, resolves, made_durable, commits, withholds, notes_rejection, accept, dispatch,
  step,
}
use fieldnotes.Protocol.Session.Admissible.{IsAdmissible}
use fieldnotes.Protocol.Session.Offers.{ClaimAllowed}

-- What every update of a session except reporting a record durable does to a predicate.
pub record Closed (P : Session → Type 0) : Type 0 where
  pub halts : (s : Session) → P s → P (halt s)
  pub numbers : (s : Session) (q : ℕ) → q ≡ s.last_seq + 1 → P s → P (at_seq q s)
  pub records :
      (s : Session) (e : RecordEvent) (f : Text) (d : RecordDisposition)
      → Starts s e.run_id e.seq
      → IsAdmissible (at_seq e.seq s) e
      → P s
      → P (install_record e f d (at_seq e.seq s)).1
  pub offers :
      (s : Session) (e : CheckpointEvent)
      → Starts s e.run_id e.seq
      → Covers (at_seq e.seq s) e
      → ClaimAllowed s e.snapshot
      → P s
      → P (install_offer e (with_claim e.snapshot (at_seq e.seq s))).1
  pub diagnoses :
      (s : Session) (e : DiagnosticEvent)
      → Starts s e.run_id e.seq
      → s.diagnostic_count + 1 ≤ s.limits.max_run_diagnostics
      → P s
      → P (install_diagnostic e (at_seq e.seq s)).1
  pub charges : (s : Session) (n : ℕ) → P s → P (record s { staged_bytes = n })
  pub decides : (s : Session) → P s → P (record s { pending_offer = none })
  pub commits :
      (s : Session) (o : CheckpointOffer)
      → s.pending_offer ≡ some o
      → s.rejected ≡ false
      → first_undurable_through s o.covers_record_seq_through ≡ none
      → P s
      → P (advance_cursor o s)

-- A chain of actions that keep a predicate keeps it, also where one of them fails.
pub bind-keeps :
    {A B : Type 0} (P : Session → Type 0) (m : M A) (f : A → M B) (s : Session)
    → P (m s).1
    → ((a : A) (s' : Session) → P s' → P (f a s').1)
    → P ((m >>= f) s).1
bind-keeps {A} P m f s h k = go (m s) h
  where
    go : (r : Result A × Session) → P r.1 → P (continue r.0 f r.1).1
    go (ok a, s') p = k a s' p
    go (err c, s') p = p

if_keeps :
    {A : Type 0} (P : Session → Type 0) (b : Bool) (x y : A × Session)
    → P x.1
    → P y.1
    → P (if b then x else y).1
if_keeps P true x y h k = h
if_keeps P false x y h k = k

fail_if_keeps :
    (P : Session → Type 0) (b : Bool) (c : RejectionCode) (s : Session)
    → P s
    → P (halt s)
    → P (fail_if b c s).1
fail_if_keeps P true c s h k = k
fail_if_keeps P false c s h k = h

module _ {P : Session → Type 0} (K : Closed P) where
  accept_record-keeps :
      (serde : Serde) (e : RecordEvent) {s : Session} → P s → P (accept_record serde e s).1
  accept_record-keeps serde e {s} v =
      go (accept_record serde e s) (accept_record-Recorded serde e s)
    where
      go : (r : Result AcceptedRecord × Session) → Recorded serde s e r → P r.1
      go r (recorded f d start fine h) = K.records s e f d start fine v
      go r (Recorded.rejected_before c) = K.halts s v
      go r (Recorded.rejected_at c start) = K.halts _ (K.numbers s e.seq start.next v)
      go r (unencoded c start h) = K.numbers s e.seq start.next v

  accept_checkpoint-keeps : (e : CheckpointEvent) {s : Session} → P s → P (accept_checkpoint e s).1
  accept_checkpoint-keeps e {s} v = go (accept_checkpoint e s) (accept_checkpoint-Checkpointed e s)
    where
      go : (r : Result CheckpointOffer × Session) → Checkpointed s e r → P r.1
      go r (offered start covers cursor claim) = K.offers s e start covers claim v
      go r (Checkpointed.rejected_before c) = K.halts s v
      go r (Checkpointed.rejected_at c start) = K.halts _ (K.numbers s e.seq start.next v)

  accept_diagnostic-keeps : (e : DiagnosticEvent) {s : Session} → P s → P (accept_diagnostic e s).1
  accept_diagnostic-keeps e {s} v = go (accept_diagnostic e s) (accept_diagnostic-Diagnosed e s)
    where
      go : (r : Result (ℕ × Severity) × Session) → Diagnosed s e r → P r.1
      go r (diagnosed start fits) = K.diagnoses s e start fits v
      go r (Diagnosed.rejected_before c) = K.halts s v
      go r (Diagnosed.rejected_at c start) = K.halts _ (K.numbers s e.seq start.next v)

  dispatch-keeps : (serde : Serde) (e : FieldEvent) {s : Session} → P s → P (dispatch serde e s).1
  unfolding dispatch
  dispatch-keeps serde (manifest_event m) {s} v = K.halts s v
  dispatch-keeps serde (record_event e) {s} v =
      bind-keeps P (accept_record serde e) _ s (accept_record-keeps serde e v) (λ a s' w. w)
  dispatch-keeps serde (checkpoint_event e) {s} v =
      bind-keeps P (accept_checkpoint e) _ s (accept_checkpoint-keeps e v) (λ a s' w. w)
  dispatch-keeps serde (diagnostic_event e) {s} v =
      bind-keeps P (accept_diagnostic e) _ s (accept_diagnostic-keeps e v) (λ a s' w. w)

  pub accept-keeps : (serde : Serde) (e : FieldEvent) {s : Session} → P s → P (accept serde e s).1
  unfolding accept
  accept-keeps serde e {s} v = go s.rejected (is_some s.pending_offer)
    where
      go :
          (b c : Bool)
          → P
              (if b
                then (err Codes.protocol_unexpected_order, s)
                else if c
                then (err Codes.protocol_unexpected_order, halt s)
                else dispatch serde e s).1
      go true c = v
      go false true = K.halts s v
      go false false = dispatch-keeps serde e v

  charge-keeps : (o : ArtifactOutcome) (s : Session) → P s → P (charge o s).1
  unfolding charge
  charge-keeps (declined a) s v = v
  charge-keeps (resolved a) s v =
      if_keeps P a.reused (ok tt, s) _ v
        (fail_if_keeps P _ _ _ (K.charges s _ v) (K.halts _ (K.charges s _ v)))

  module _ (sha256 : Text → Text) (staging : Staging) (contains_digest : Text → Bool) where
    resolve_reference-keeps :
        (a : ArtifactRef) (s : Session)
        → P s
        → P (resolve_reference sha256 staging contains_digest a s).1
    unfolding resolve_reference
    resolve_reference-keeps a s v =
        go (resolve_artifact sha256 staging a s.limits s.media_type_policy contains_digest)
      where
        go :
            (r : Result ArtifactOutcome)
            → P (
                (elim r as (λ _. Result ArtifactOutcome × Session) [
                  | err code ↦ (err code, halt s)
                  | ok outcome ↦ (charge outcome >> λ s'. (ok outcome, s')) s
                ]).1)
        go (err c) = K.halts s v
        go (ok o) =
            bind-keeps P (charge o) (λ _ s'. (ok o, s')) s (charge-keeps o s v) (λ _ s' w. w)

    resolve_references-keeps :
        (as' : List ArtifactRef) (s : Session)
        → P s
        → P (resolve_references sha256 staging contains_digest as' s).1
    unfolding resolve_references
    resolve_references-keeps [] s v = v
    resolve_references-keeps (a ∷ as') s v =
        bind-keeps P (resolve_reference sha256 staging contains_digest a) _ s
          (resolve_reference-keeps a s v)
          λ o s' w.
            bind-keeps P (resolve_references sha256 staging contains_digest as') _ s'
              (resolve_references-keeps as' s' w) (λ os s'' u. u)

    pub resolve_artifacts-keeps :
        (e : RecordEvent) (s : Session)
        → P s
        → P (resolve_artifacts sha256 staging contains_digest e s).1
    unfolding resolve_artifacts
    resolve_artifacts-keeps e s v = go e.artifacts
      where
        go :
            (o : Option (List ArtifactRef))
            → P
                ((elim o as (λ _. M (List ArtifactOutcome)) [
                  | none ↦ λ s'. (ok [], s')
                  | some references ↦ resolve_references sha256 staging contains_digest references
                ])
                  s).1
        go none = v
        go (some as') = resolve_references-keeps as' s v

  commit-keeps : (o : CheckpointOffer) {s : Session} → P s → P (commit o s).1
  commit-keeps o {s} v = go (commit o s) (commit-Decided o s)
    where
      go : (r : CommitResult CommittedCursor × Session) → Decided s o r → P r.1
      go r (Decided.commits waiting live all forward) = K.commits s o waiting live all v
      go r (unknown h) = v
      go r (drops h k) = K.decides s v
      go r (waits q h k) = v
      go r (goes_back h k) = v

  withhold-keeps : (o : CheckpointOffer) {s : Session} → P s → P (withhold o s).1
  unfolding withhold
  withhold-keeps o {s} v = if_keeps P _ _ _ v (K.decides s v)

  -- Whatever is called next keeps `P`, if reporting a record durable does.
  pub step-keeps :
      (serde : Serde) (s : Session) (c : Call)
      → ((q : ℕ) → c ≡ made_durable q → P s → P (record_durable q s))
      → P s
      → P (step serde s c)
  unfolding step note_rejection
  step-keeps serde s (accepts e) durable v = accept-keeps serde e v
  step-keeps serde s (resolves staging contains_digest e) durable v =
      resolve_artifacts-keeps serde.sha256 staging contains_digest e s v
  step-keeps serde s (made_durable q) durable v = durable q refl v
  step-keeps serde s (commits o) durable v = commit-keeps o v
  step-keeps serde s (withholds o) durable v = withhold-keeps o v
  step-keeps serde s notes_rejection durable v = K.halts s v
