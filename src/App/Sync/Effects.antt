-- ===== src/App/Sync/Effects.antt =====
-- sync/mod.rs: the actions of apply_record that leave the run's session and its index alone.
use fieldnotes.Prelude.{
  ◌++◌, text_eq, Bool-cases, inl, inr, ◌≡◌, Text, Bool, true, false, not, Option, none, some, List,
  [], ◌∷◌, if◌then◌else◌,
}
use fieldnotes.Domain.Ids.{
  IdResult, valid, invalid, ArtifactId, artifact_prefix, parse_artifact_id, show_artifact_id,
}
use fieldnotes.Protocol.Codes.{Result, ok, err, artifact_unknown_digest}
use fieldnotes.Protocol.Message.{RecordEvent, ArtifactRef}
use fieldnotes.Protocol.Artifact.{
  ArtifactOutcome, ResolvedArtifact, resolved, declined, parsed_handle,
}
use fieldnotes.Protocol.Session.State.{Session}
use fieldnotes.Store.Index.{SourceIndex}
use fieldnotes.App.Sync.State.{
  Outside, CollectContext, Run, ArtifactProjection, ApplyResult, done, rejected, durability, ◌>>=◌,
  continue, or_rejected, or_durability, on_counts, StoredArtifact,
}
use fieldnotes.App.Sync.Apply.{
  located, reuse_stored, confirm_stored, install_bytes, install_staged, install_resolved,
  install_one, install_all, install_artifacts, is_digest_only, references_of,
}

module _ {W Parsed : Type 0} where
  -- The session and the index are still these.
  pub record Still (s : Session) (i : SourceIndex Parsed) (r : Run W Parsed) : Type 0 where
    pub session : r.session ≡ s
    pub index : r.index ≡ i

  -- An action that leaves the session and the index alone.
  abbrev pub Keeps : {A : Type 0} → (Run W Parsed → ApplyResult A × Run W Parsed) → Type 0
  Keeps m =
      (s : Session) (i : SourceIndex Parsed) (r : Run W Parsed) → Still s i r → Still s i (m r).1

  pub bind-Keeps :
      {A B : Type 0} (m : Run W Parsed → ApplyResult A × Run W Parsed)
      (f : A → Run W Parsed → ApplyResult B × Run W Parsed)
      → Keeps m
      → ((a : A) → Keeps (f a))
      → Keeps (m >>= f)
  bind-Keeps {A} m f h k s i r v = go (m r) (h s i r v)
    where
      go : (x : ApplyResult A × Run W Parsed) → Still s i x.1 → Still s i (continue x.0 f x.1).1
      go (done a, t) w = k a s i t w
      go (rejected c, t) w = w
      go (durability, t) w = w

  pub or_rejected-Keeps : {A : Type 0} (x : Result A) → Keeps (or_rejected x)
  or_rejected-Keeps (ok a) s i r v = v
  or_rejected-Keeps (err c) s i r v = v

  pub or_durability-Keeps :
      {A : Type 0} (f : W → Option A × W) → Keeps (λ r. or_durability (f r.world) r)
  or_durability-Keeps {A} f s i r v = go (f r.world)
    where
      go : (x : Option A × W) → Still s i (or_durability x r).1
      go (some a, w) = record { session = v.session; index = v.index }
      go (none, w) = record { session = v.session; index = v.index }

  pub on_counts-Keeps : (f : _) → Keeps (on_counts f)
  on_counts-Keeps f s i r v = record { session = v.session; index = v.index }

module _ {W Parsed Candidate : Type 0} (out : Outside W Parsed Candidate)
    (context : CollectContext) where
  located-Keeps : (id : Text) (o : Option (Option Text)) → Keeps (located out context id o)
  unfolding located
  located-Keeps id none s i r v = v
  located-Keeps id (some none) s i r v = v
  located-Keeps id (some (some path)) s i r v = v

  reuse_stored-Keeps : (d : Text) (m : Option Text) → Keeps (reuse_stored out context d m)
  unfolding reuse_stored
  reuse_stored-Keeps d m s i r v = go (parse_artifact_id (artifact_prefix ++ d))
    where
      go :
          (x : IdResult ArtifactId)
          → Still s i
              (elim x as (λ _. ApplyResult (Text × Text) × Run W Parsed) [
                | invalid e ↦ (rejected artifact_unknown_digest, r)
                | valid id ↦
                    located out context
                      (show_artifact_id id)
                      (out.find_artifact (show_artifact_id id) m r.world)
                      r
              ]).1
      go (invalid e) = v
      go (valid id) = located-Keeps _ _ s i r v

  if_Keeps :
      {A : Type 0} (b : Bool) (m n : Run W Parsed → ApplyResult A × Run W Parsed)
      → Keeps m
      → Keeps n
      → Keeps (λ r. (if b then m else n) r)
  if_Keeps true m n h k = h
  if_Keeps false m n h k = k

  confirm_stored-Keeps : (d : Text) (a : StoredArtifact) → Keeps (confirm_stored out context d a)
  unfolding confirm_stored
  confirm_stored-Keeps d a s i r v = elim (Bool-cases (not (text_eq a.id (artifact_prefix ++ d)))) [
    | inl other ↦ rw other v
    | inr same ↦ rw same (record { session = v.session; index = v.index })
  ]

  install_bytes-Keeps :
      (d : Text) (m : Option Text) (o : Option Text) → Keeps (install_bytes out context d m o)
  unfolding install_bytes
  install_bytes-Keeps d m none = λ s i r v. v
  install_bytes-Keeps d m (some bytes) =
      bind-Keeps _ _ (or_durability-Keeps (out.store_artifact bytes _))
        (λ a. confirm_stored-Keeps d a)

  install_staged-Keeps :
      (a : ArtifactRef) (d : Text) (m : Option Text) → Keeps (install_staged out context a d m)
  unfolding install_staged
  install_staged-Keeps a d m =
      bind-Keeps _ _ (or_rejected-Keeps (parsed_handle a))
        (λ h s i r v. install_bytes-Keeps d m (out.read_staged h r.world) s i r v)

  install_resolved-Keeps :
      (a : ArtifactRef) (x : ResolvedArtifact) → Keeps (install_resolved out context a x)
  unfolding install_resolved
  install_resolved-Keeps a x =
      if_Keeps x.reused _ _
        (if_Keeps (is_digest_only a.kind) _ _ (reuse_stored-Keeps x.digest _)
          (install_staged-Keeps a x.digest _))
        (install_staged-Keeps a x.digest _)

  install_one-Keeps :
      (a : ArtifactRef) (o : ArtifactOutcome) (p : ArtifactProjection)
      → Keeps (install_one out context a o p)
  unfolding install_one
  install_one-Keeps a (declined x) p = λ s i r v. v
  install_one-Keeps a (resolved x) p =
      bind-Keeps _ _ (install_resolved-Keeps a x)
        (λ t s i r v. record { session = v.session; index = v.index })

  install_all-Keeps :
      (as' : List ArtifactRef) (os : List ArtifactOutcome) (p : ArtifactProjection)
      → Keeps (install_all out context as' os p)
  unfolding install_all
  install_all-Keeps [] os p = λ s i r v. v
  install_all-Keeps (a ∷ as') [] p = λ s i r v. v
  install_all-Keeps (a ∷ as') (o ∷ os) p =
      bind-Keeps _ _ (install_one-Keeps a o p) (λ q. install_all-Keeps as' os q)

  pub install_artifacts-Keeps :
      (e : RecordEvent) (os : List ArtifactOutcome) → Keeps (install_artifacts out context e os)
  unfolding install_artifacts
  install_artifacts-Keeps e os = install_all-Keeps (references_of out context e) os _
