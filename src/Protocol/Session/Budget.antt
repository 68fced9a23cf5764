-- ===== src/Protocol/Session/Budget.antt =====
-- session.rs, resolve_artifacts: the run's staged-byte budget.
use fieldnotes.Prelude.{
  ℕ, ◌≤◌, ◌≡◌, inl, inr, refl, sym, ap, ◌∙◌, subst, Text, Bool, Option, none, some, List, [], ◌∷◌,
  arith, ltb, if◌then◌else◌, saturating_add, Bool-cases,
}
use fieldnotes.Protocol.Codes.{Result, ok, err}
use fieldnotes.Protocol.Message.{RecordEvent, ArtifactRef}
use fieldnotes.Protocol.Artifact.{Staging, ArtifactOutcome, resolved, declined, resolve_artifact}
use fieldnotes.Protocol.Session.State.{Session, M, ◌>>=◌, ◌>>◌, continue, fail, pure}
use fieldnotes.Protocol.Session.Artifacts.{
  charge, resolve_reference, resolve_references, resolve_artifacts,
}

-- The bytes that one outcome adds: none for declined references and for bytes that core has already.
abbrev pub staged_by : ArtifactOutcome → ℕ → ℕ
staged_by (declined artifact) n = n
staged_by (resolved artifact) n =
    if artifact.reused then n else saturating_add n artifact.byte_length

abbrev pub staged_by_all : List ArtifactOutcome → ℕ → ℕ
staged_by_all [] n = n
staged_by_all (o ∷ os) n = staged_by_all os (staged_by o n)

-- An action that succeeds moves the budget from `n` to `m` and stays within the bound.
record Charges (s t : Session) (m : ℕ) : Type 0 where
  exact : t.staged_bytes ≡ m
  bound :
      s.staged_bytes ≤ s.limits.max_run_artifact_bytes
      → t.staged_bytes ≤ t.limits.max_run_artifact_bytes
  limits : t.limits ≡ s.limits

-- A chain of actions that succeeds is a chain of successes.
bind_ok :
    {A B : Type 0} (m : M A) (f : A → M B) (s : Session) (b : B)
    → ((m >>= f) s).0 ≡ ok b
    → (a : A) × ((m s).0 ≡ ok a) × ((f a (m s).1).0 ≡ ok b) × (((m >>= f) s).1 ≡ (f a (m s).1).1)
bind_ok {A} {B} m f s b h = go (m s) h
  where
    go :
        (r : Result A × Session)
        → (continue r.0 f r.1).0 ≡ ok b
        → (a : A) × (r.0 ≡ ok a) × ((f a r.1).0 ≡ ok b) × ((continue r.0 f r.1).1 ≡ (f a r.1).1)
    go (ok a, t) h = (a, refl, h, refl)
    go (err c, t) h = cc

charge-Charges :
    (o : ArtifactOutcome) (s : Session)
    → (charge o s).0 ≡ ok tt
    → Charges s (charge o s).1 (staged_by o s.staged_bytes)
unfolding charge
charge-Charges (declined a) s h = record { exact = refl; bound = λ b. b; limits = refl }
charge-Charges (resolved a) s h = elim (Bool-cases a.reused) [
  | inl r ↦ rw r (record { exact = refl; bound = λ b. b; limits = refl })
  | inr r ↦
      elim (Bool-cases
        (ltb s.limits.max_run_artifact_bytes (saturating_add s.staged_bytes a.byte_length))) [
          | inl over ↦ cc (h, r, over)
          | inr fits ↦
              rw (r, fits) (record { exact = refl; bound = λ b. ground arith; limits = refl })
        ]
]

module _ (sha256 : Text → Text) (staging : Staging) (contains_digest : Text → Bool) where
  resolve_reference-Charges :
      (a : ArtifactRef) (s : Session) (o : ArtifactOutcome)
      → (resolve_reference sha256 staging contains_digest a s).0 ≡ ok o
      → Charges s
          (resolve_reference sha256 staging contains_digest a s).1
          (staged_by o s.staged_bytes)
  unfolding resolve_reference
  resolve_reference-Charges a s o h =
      go (resolve_artifact sha256 staging a s.limits s.media_type_policy contains_digest) h
    where
      at : Result ArtifactOutcome → Result ArtifactOutcome × Session
      at r = elim r [ err code ↦ fail code s | ok outcome ↦ (charge outcome >> pure outcome) s ]

      charged :
          (p : ArtifactOutcome)
          → (tt' : Unit {0}) → (charge p s).0 ≡ ok tt'
          → Charges s (charge p s).1 (staged_by p s.staged_bytes)
      charged p tt h = charge-Charges p s h

      go :
          (r : Result ArtifactOutcome)
          → (at r).0 ≡ ok o
          → Charges s (at r).1 (staged_by o s.staged_bytes)
      go (err c) h = cc
      go (ok p) h =
          let (u, done, same, state) = bind_ok (charge p) (λ _. pure p) s o h in
          subst (λ q. Charges s (at (ok p)).1 (staged_by q s.staged_bytes)) (inj p same)
            (subst (λ t. Charges s t (staged_by p s.staged_bytes)) (sym state) (charged p u done))
        where
          inj : (p : ArtifactOutcome) → ok p ≡ ok o → p ≡ o
          inj p h = cc

  resolve_references-Charges :
      (as' : List ArtifactRef) (s : Session) (os : List ArtifactOutcome)
      → (resolve_references sha256 staging contains_digest as' s).0 ≡ ok os
      → Charges s
          (resolve_references sha256 staging contains_digest as' s).1
          (staged_by_all os s.staged_bytes)
  unfolding resolve_references
  resolve_references-Charges [] s os h =
      subst (λ x. Charges s s (staged_by_all x s.staged_bytes)) (inj h)
        (record { exact = refl; bound = λ b. b; limits = refl })
    where
      inj : ok [] ≡ ok os → [] ≡ os
      inj h = cc
  resolve_references-Charges (a ∷ as') s os h =
      let (o, first, onward, state) =
        bind_ok (resolve_reference sha256 staging contains_digest a)
          (λ o. resolve_references sha256 staging contains_digest as' >>= λ ps. pure (o ∷ ps)) s os
          h in
      let s' = (resolve_reference sha256 staging contains_digest a s).1 in
      let (ps, rest, last, state') =
        bind_ok (resolve_references sha256 staging contains_digest as') (λ ps. pure (o ∷ ps)) s' os
          onward in
      let v = resolve_reference-Charges a s o first in
      let w = resolve_references-Charges as' s' ps rest in
      subst (λ t. Charges s t (staged_by_all os s.staged_bytes)) (sym (state ∙ state'))
        (record {
          exact =
              w.exact
              ∙ ap (staged_by_all ps) v.exact
              ∙ ap (λ x. staged_by_all x s.staged_bytes) (inj o ps last);
          bound = λ b. w.bound (v.bound b);
          limits = w.limits ∙ v.limits;
        })
    where
      inj : (o : ArtifactOutcome) (ps : List ArtifactOutcome) → ok (o ∷ ps) ≡ ok os → o ∷ ps ≡ os
      inj o ps h = cc

  -- When all references of a record resolve in a run whose budget is within its bound, the run's staged
  -- bytes grow by the lengths of exactly those outcomes that were staged, and stay within the bound.
  pub resolve_artifacts_budget :
      (e : RecordEvent) (s : Session) (os : List ArtifactOutcome)
      → s.staged_bytes ≤ s.limits.max_run_artifact_bytes
      → (resolve_artifacts sha256 staging contains_digest e s).0 ≡ ok os
      → ((resolve_artifacts sha256 staging contains_digest e s).1.staged_bytes
          ≡ staged_by_all os s.staged_bytes)
        × ((resolve_artifacts sha256 staging contains_digest e s).1.staged_bytes
            ≤ s.limits.max_run_artifact_bytes)
  unfolding resolve_artifacts
  resolve_artifacts_budget e s os room h = go e.artifacts h
    where
      at : Option (List ArtifactRef) → M (List ArtifactOutcome)
      at o = elim o [
        | none ↦ pure []
        | some references ↦ resolve_references sha256 staging contains_digest references
      ]

      within :
          (t : Session) (n : ℕ)
          → Charges s t n
          → (t.staged_bytes ≡ n) × (t.staged_bytes ≤ s.limits.max_run_artifact_bytes)
      within t n v =
          (v.exact, subst (λ l. t.staged_bytes ≤ l.max_run_artifact_bytes) v.limits (v.bound room))

      go :
          (o : Option (List ArtifactRef))
          → (at o s).0 ≡ ok os
          → ((at o s).1.staged_bytes ≡ staged_by_all os s.staged_bytes)
            × ((at o s).1.staged_bytes ≤ s.limits.max_run_artifact_bytes)
      go none h =
          (subst (λ x. s.staged_bytes ≡ staged_by_all x s.staged_bytes) (empty h) refl, room)
        where
          empty : ok [] ≡ ok os → [] ≡ os
          empty h = cc
      go (some as') h = within _ _ (resolve_references-Charges as' s os h)
