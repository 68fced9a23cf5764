-- ===== src/Protocol/Session/Refusals.antt =====
-- Which refusals of session.rs's accept fail the run.
use fieldnotes.Prelude.{ℕ, ◌≡◌, ◌⊎◌, inl, inr, refl, ◌∙◌, Bool, true, false, arith, if◌then◌else◌}
use fieldnotes.Protocol.Codes.{RejectionCode, Result, ok, err, protocol_unexpected_order}
use fieldnotes.Protocol.Message.{
  FieldEvent, RecordEvent, CheckpointEvent, DiagnosticEvent, Severity, manifest_event, record_event,
  checkpoint_event, diagnostic_event,
}
use fieldnotes.Protocol.Session.State.{Session, CheckpointOffer, continue, is_some}
use fieldnotes.Protocol.Session.Records.{
  Serde, AcceptedRecord, install_record, install_diagnostic, accept_record, accept_diagnostic,
  semantic_fingerprint,
}
use fieldnotes.Protocol.Session.Checkpoints.{install_offer, accept_checkpoint}
use fieldnotes.Protocol.Session.Steps.{accepted_record, checkpoint, accept, dispatch}
use fieldnotes.Protocol.Session.Outcomes.{
  halt, Recorded, recorded, unencoded, accept_record-Recorded,
}
use fieldnotes.Protocol.Session.Offers.{
  Checkpointed, offered, accept_checkpoint-Checkpointed, Diagnosed, diagnosed,
  accept_diagnostic-Diagnosed,
}

-- A refusal fails the run, unless the record could not be encoded.
abbrev pub FailsOrUnencoded : Serde → FieldEvent → RejectionCode → Session → Type 0
FailsOrUnencoded serde (record_event e) c t =
    (t.rejected ≡ true) ⊎ (semantic_fingerprint serde e ≡ err c)
FailsOrUnencoded serde (manifest_event m) c t = t.rejected ≡ true
FailsOrUnencoded serde (checkpoint_event e) c t = t.rejected ≡ true
FailsOrUnencoded serde (diagnostic_event e) c t = t.rejected ≡ true

same_code :
    {A B : Type 0} (c d : RejectionCode)
    → ◌≡◌ {A = Result A} (err c) (err d)
    → ◌≡◌ {A = Result B} (err c) (err d)
same_code c d h = ground arith

accept_record_err :
    (serde : Serde) (e : RecordEvent) (s : Session) (c : RejectionCode)
    (r : Result AcceptedRecord × Session)
    → Recorded serde s e r
    → r.0 ≡ err c
    → (r.1.rejected ≡ true) ⊎ (semantic_fingerprint serde e ≡ err c)
accept_record_err serde e s c r (recorded f d start fine h) p = unfold install_record in cc
accept_record_err serde e s c r (Recorded.rejected_before c') p = inl refl
accept_record_err serde e s c r (Recorded.rejected_at c' start) p = inl refl
accept_record_err serde e s c r (unencoded c' start h) p = inr (h ∙ same_code c' c p)

accept_checkpoint_err :
    (e : CheckpointEvent) (s : Session) (c : RejectionCode) (r : Result CheckpointOffer × Session)
    → Checkpointed s e r
    → r.0 ≡ err c
    → r.1.rejected ≡ true
accept_checkpoint_err e s c r (offered start covers cursor claim) p = unfold install_offer in cc
accept_checkpoint_err e s c r (Checkpointed.rejected_before c') p = refl
accept_checkpoint_err e s c r (Checkpointed.rejected_at c' start) p = refl

accept_diagnostic_err :
    (e : DiagnosticEvent) (s : Session) (c : RejectionCode) (r : Result (ℕ × Severity) × Session)
    → Diagnosed s e r
    → r.0 ≡ err c
    → r.1.rejected ≡ true
accept_diagnostic_err e s c r (diagnosed start fits) p = unfold install_diagnostic in cc
accept_diagnostic_err e s c r (Diagnosed.rejected_before c') p = refl
accept_diagnostic_err e s c r (Diagnosed.rejected_at c' start) p = refl

-- The result of an action whose last step only wraps it.
wrapped_err :
    {A B : Type 0} (P : Session → Type 0) (c : RejectionCode) (f : A → B) (r : Result A × Session)
    → (r.0 ≡ err c → P r.1)
    → (continue r.0 (λ a t. (ok (f a), t)) r.1).0 ≡ err c
    → P (continue r.0 (λ a t. (ok (f a), t)) r.1).1
wrapped_err P c f (ok a, t) h p = cc
wrapped_err P c f (err c', t) h p = h (same_code c' c p)

dispatch_err :
    (serde : Serde) (e : FieldEvent) (s : Session) (c : RejectionCode)
    → (dispatch serde e s).0 ≡ err c
    → FailsOrUnencoded serde e c (dispatch serde e s).1
unfolding dispatch
dispatch_err serde (manifest_event m) s c h = refl
dispatch_err serde (record_event e) s c h =
    wrapped_err (FailsOrUnencoded serde (record_event e) c) c accepted_record
      (accept_record serde e s) (accept_record_err serde e s c _ (accept_record-Recorded serde e s))
      h
dispatch_err serde (checkpoint_event e) s c h =
    wrapped_err (FailsOrUnencoded serde (checkpoint_event e) c) c checkpoint (accept_checkpoint e s)
      (accept_checkpoint_err e s c _ (accept_checkpoint-Checkpointed e s)) h
dispatch_err serde (diagnostic_event e) s c h =
    wrapped_err (FailsOrUnencoded serde (diagnostic_event e) c) c _ (accept_diagnostic e s)
      (accept_diagnostic_err e s c _ (accept_diagnostic-Diagnosed e s)) h

fails :
    (serde : Serde) (e : FieldEvent) (c : RejectionCode) (t : Session)
    → t.rejected ≡ true
    → FailsOrUnencoded serde e c t
fails serde (record_event e) c t h = inl h
fails serde (manifest_event m) c t h = h
fails serde (checkpoint_event e) c t h = h
fails serde (diagnostic_event e) c t h = h

-- Whatever `accept` refuses fails the run, with one exception: a record that the encoder refuses is
-- refused with the encoder's code, and this does not by itself fail the run.
pub accept_err :
    (serde : Serde) (e : FieldEvent) (s : Session) (c : RejectionCode)
    → (accept serde e s).0 ≡ err c
    → FailsOrUnencoded serde e c (accept serde e s).1
unfolding accept
accept_err serde e s c h = go s.rejected (is_some s.pending_offer) refl h
  where
    go :
        (b w : Bool)
        → s.rejected ≡ b
        → (if b
            then (err protocol_unexpected_order, s)
            else if w
            then (err protocol_unexpected_order, halt s)
            else dispatch serde e s).0
          ≡ err c
        → FailsOrUnencoded serde e c
            (if b
              then (err protocol_unexpected_order, s)
              else if w
              then (err protocol_unexpected_order, halt s)
              else dispatch serde e s).1
    go true w k p = fails serde e c s k
    go false true k p = fails serde e c (halt s) refl
    go false false k p = dispatch_err serde e s c p
