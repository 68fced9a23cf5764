-- ===== src/Protocol/Session/Charges.antt =====
-- session.rs: what resolving a record's references does to a session: it charges the budget, and it ends
-- the run where it fails.
use fieldnotes.Prelude.{
  ℕ, Text, Bool, true, false, Option, none, some, List, [], ◌∷◌, ltb, Bool-cases, inl, inr,
  saturating_add,
}
use fieldnotes.Protocol.Codes as Codes
use fieldnotes.Protocol.Codes.{RejectionCode, Result, ok, err}
use fieldnotes.Protocol.Message.{RecordEvent, ArtifactRef}
use fieldnotes.Protocol.Artifact.{Staging, ArtifactOutcome, resolved, declined, resolve_artifact}
use fieldnotes.Protocol.Session.State.{Session, M, ◌>>=◌, ◌>>◌, continue, pure, fail, fail_if}
use fieldnotes.Protocol.Session.Artifacts.{
  charge, resolve_reference, resolve_references, resolve_artifacts,
}

abbrev pub charged : ℕ → Session → Session
charged n s = record s { staged_bytes = n }

pub data Charged {A : Type 0} (s : Session) : Result A × Session → Type 0 where
  charges : (a : A) (n : ℕ) → Charged s (ok a, charged n s)
  halts : (c : RejectionCode) (n : ℕ) → Charged s (err c, record (charged n s) { rejected = true })

bind-Charged :
    {A B : Type 0} (m : M A) (f : A → M B) (s : Session)
    → Charged s (m s)
    → ((a : A) (n : ℕ) → Charged (charged n s) (f a (charged n s)))
    → Charged s ((m >>= f) s)
bind-Charged {A} {B} m f s h k = go (m s) h
  where
    again : (n : ℕ) (x : Result B × Session) → Charged (charged n s) x → Charged s x
    again n x (charges a p) = charges a p
    again n x (halts c p) = halts c p

    go : (x : Result A × Session) → Charged s x → Charged s (continue x.0 f x.1)
    go x (charges a n) = again n _ (k a n)
    go x (halts c n) = halts c n

charge-Charged : (o : ArtifactOutcome) (s : Session) → Charged s (charge o s)
unfolding charge
charge-Charged (declined a) s = charges tt s.staged_bytes
charge-Charged (resolved a) s = elim (Bool-cases a.reused) [
  | inl r ↦ rw r (charges tt s.staged_bytes)
  | inr r ↦
      rw r (go (ltb s.limits.max_run_artifact_bytes (saturating_add s.staged_bytes a.byte_length)))
]
  where
    go :
        (b : Bool)
        → Charged s (
            fail_if b Codes.protocol_limit_exceeded
              (charged (saturating_add s.staged_bytes a.byte_length) s))
    go true = halts _ _
    go false = charges tt _

module _ (sha256 : Text → Text) (staging : Staging) (contains_digest : Text → Bool) where
  resolve_reference-Charged :
      (a : ArtifactRef) (s : Session)
      → Charged s (resolve_reference sha256 staging contains_digest a s)
  unfolding resolve_reference
  resolve_reference-Charged a s =
      go (resolve_artifact sha256 staging a s.limits s.media_type_policy contains_digest)
    where
      go :
          (r : Result ArtifactOutcome)
          → Charged s (elim r as (λ _. Result ArtifactOutcome × Session) [
            | err code ↦ fail code s
            | ok outcome ↦ (charge outcome >> pure outcome) s
          ])
      go (err c) = halts c s.staged_bytes
      go (ok o) = bind-Charged (charge o) (λ _. pure o) s (charge-Charged o s) (λ _ n. charges o n)

  resolve_references-Charged :
      (as' : List ArtifactRef) (s : Session)
      → Charged s (resolve_references sha256 staging contains_digest as' s)
  unfolding resolve_references
  resolve_references-Charged [] s = charges [] s.staged_bytes
  resolve_references-Charged (a ∷ as') s =
      bind-Charged (resolve_reference sha256 staging contains_digest a) _ s
        (resolve_reference-Charged a s)
        λ o n.
          bind-Charged (resolve_references sha256 staging contains_digest as') _ (charged n s)
            (resolve_references-Charged as' (charged n s)) (λ os m. charges (o ∷ os) m)

  -- A record's references charge the budget and nothing else; where one is refused, the run has failed.
  pub resolve_artifacts-Charged :
      (e : RecordEvent) (s : Session)
      → Charged s (resolve_artifacts sha256 staging contains_digest e s)
  unfolding resolve_artifacts
  resolve_artifacts-Charged e s = go e.artifacts
    where
      go :
          (o : Option (List ArtifactRef))
          → Charged s (
              (elim o as (λ _. M (List ArtifactOutcome)) [
                | none ↦ pure []
                | some references ↦ resolve_references sha256 staging contains_digest references
              ])
                s)
      go none = charges [] s.staged_bytes
      go (some as') = resolve_references-Charged as' s
