-- ===== src/Protocol/Session/Admissible.antt =====
-- session.rs, the checks of accept_record: what passing them means.
use fieldnotes.Prelude.{of_not}
use fieldnotes.Prelude.{
  ℕ, ◌+◌, ◌≤◌, ◌≡◌, refl, Text, Bool, true, false, not, Option, none, some, List, [], ◌∷◌, arith,
  length, All, ltb, if◌then◌else◌,
}
use fieldnotes.Domain.NoteTypes as NoteTypes
use fieldnotes.Protocol.Codes.{RejectionCode, Result, ok, err}
use fieldnotes.Protocol.Value.{PropertyValue, member_count, max_member_bytes}
use fieldnotes.Protocol.Limits.{Limits}
use fieldnotes.Protocol.Message.{
  RecordEvent, Change, Body, ArtifactRef, TombstoneAuthority, declares_object_kind,
}
use fieldnotes.Protocol.Declared.{check}
use fieldnotes.Protocol.Session.State.{Session, M, ◌>>◌, continue, fail_if, fail, is_some}
use fieldnotes.Protocol.Session.Records.{
  check_record_bound, check_object_kind, check_note_type, check_body, check_declared,
  check_properties, check_artifacts, check_tombstone, check_record, declared_differs, exceeds,
}

-- A check leaves the session alone and knows `P`, or rejects.
pub data Checked (P : Type 0) (s : Session) : Result (Unit {0}) × Session → Type 0 where
  passed : P → Checked P s (ok tt, s)
  rejects : (c : RejectionCode) → Checked P s (err c, record s { rejected = true })

Checked-then :
    {P Q : Session → Type 0} {m n : M (Unit {0})}
    → ((s : Session) → Checked (P s) s (m s))
    → ((s : Session) → Checked (Q s) s (n s))
    → (s : Session) → Checked (P s × Q s) s ((m >> n) s)
Checked-then {P} {Q} {m} {n} h k s = go (m s) (h s)
  where
    both : P s → (r : Result (Unit {0}) × Session) → Checked (Q s) s r → Checked (P s × Q s) s r
    both p r (passed q) = passed (p, q)
    both p r (rejects c) = rejects c

    go :
        (r : Result (Unit {0}) × Session)
        → Checked (P s) s r
        → Checked (P s × Q s) s (continue r.0 (λ _. n) r.1)
    go r (passed p) = both p (n s) (k s)
    go r (rejects c) = rejects c

pub Checked-fail_if :
    {P : Type 0} (b : Bool) (c : RejectionCode) (s : Session)
    → (b ≡ false → P)
    → Checked P s (fail_if b c s)
Checked-fail_if true c s h = rejects c
Checked-fail_if false c s h = passed (h refl)

Checked-if :
    {P : Type 0} (b : Bool) (c : RejectionCode) (s : Session) {r : Result (Unit {0}) × Session}
    → (b ≡ false → Checked P s r)
    → Checked P s (if b then fail c s else r)
Checked-if true c s h = rejects c
Checked-if false c s h = h refl

-- What a record may hold under the run's limits, the manifest and its declarations.
abbrev pub KindDeclared : Session → Option Text → Type 0
KindDeclared s none = Unit {0}
KindDeclared s (some kind) = declares_object_kind s.manifest kind ≡ true

abbrev pub NoteTypeAgrees : Session → Option Text → Option Text → Type 0
NoteTypeAgrees s kind none = Unit {0}
NoteTypeAgrees s kind (some note_type) =
    (is_some (NoteTypes.parse note_type) ≡ true) × (declared_differs kind note_type s ≡ false)

abbrev pub BodyFits : Limits → Option Body → Type 0
BodyFits limits none = Unit {0}
BodyFits limits (some body) = length body.text ≤ limits.max_body_bytes

abbrev pub PropertyFits : Session → Text × PropertyValue → Type 0
PropertyFits s (name, value) =
    (member_count value ≤ s.limits.max_list_members)
    × (max_member_bytes value ≤ s.limits.max_property_value_bytes)
    × (check s.properties name value ≡ ok tt)

abbrev pub PropertiesFit : Session → Option (List (Text × PropertyValue)) → Type 0
PropertiesFit s none = Unit {0}
PropertiesFit s (some properties) =
    (length properties ≤ s.limits.max_properties_per_record) × All (PropertyFits s) properties

abbrev pub ArtifactsFit : Limits → Option (List ArtifactRef) → Type 0
ArtifactsFit limits none = Unit {0}
ArtifactsFit limits (some artifacts) = length artifacts ≤ limits.max_artifacts_per_record

abbrev pub DeletionAllowed : Session → Change → Type 0
DeletionAllowed s Change.upsert = Unit {0}
DeletionAllowed s Change.delete = s.manifest.tombstones ≡ TombstoneAuthority.authoritative

pub record IsAdmissible (s : Session) (e : RecordEvent) : Type 0 where
  pub within_run : s.record_count + 1 ≤ s.limits.max_run_records
  pub kind : KindDeclared s e.object_kind
  pub note_type : NoteTypeAgrees s e.object_kind e.note_type
  pub body : BodyFits s.limits e.body
  pub properties : PropertiesFit s e.properties
  pub artifacts : ArtifactsFit s.limits e.artifacts
  pub deletion : DeletionAllowed s e.change

ltb-false : {a b : ℕ} → ltb a b ≡ false → b ≤ a
ltb-false h = ground arith

check_record_bound-Checked :
    (s : Session) → Checked (s.record_count + 1 ≤ s.limits.max_run_records) s (check_record_bound s)
unfolding check_record_bound
check_record_bound-Checked s = Checked-fail_if _ _ s (λ h. ground arith)

check_object_kind-Checked :
    (o : Option Text) (s : Session) → Checked (KindDeclared s o) s (check_object_kind o s)
unfolding check_object_kind
check_object_kind-Checked none s = passed tt
check_object_kind-Checked (some kind) s = Checked-fail_if _ _ s (λ h. ground arith)

check_note_type-Checked :
    (kind o : Option Text) (s : Session)
    → Checked (NoteTypeAgrees s kind o) s (check_note_type kind o s)
unfolding check_note_type
check_note_type-Checked kind none s = passed tt
check_note_type-Checked kind (some t) s =
    Checked-if (not (is_some (NoteTypes.parse t))) _ s
      (λ h. Checked-fail_if _ _ s (λ k. (of_not (is_some (NoteTypes.parse t)) h, k)))

check_body-Checked :
    (o : Option Body) (s : Session) → Checked (BodyFits s.limits o) s (check_body o s)
unfolding check_body
check_body-Checked none s = passed tt
check_body-Checked (some b) s = Checked-fail_if _ _ s (λ h. ground arith)

check_value-Checked :
    (v : Result (Unit {0})) (P : Type 0) (s : Session) {r : Result (Unit {0}) × Session}
    → (v ≡ ok tt → Checked P s r)
    → Checked P s (elim v [ ok _ ↦ r | err code ↦ fail code s ])
check_value-Checked (ok tt) P s h = h refl
check_value-Checked (err c) P s h = rejects c

Checked-map :
    {P Q : Type 0} {s : Session} {r : Result (Unit {0}) × Session}
    → (P → Q)
    → Checked P s r
    → Checked Q s r
Checked-map f (passed p) = passed (f p)
Checked-map f (rejects c) = rejects c

check_declared-Checked :
    (ps : List (Text × PropertyValue)) (s : Session)
    → exceeds s.limits ps ≡ false
    → Checked (All (PropertyFits s) ps) s (check_declared ps s)
unfolding check_declared exceeds
check_declared-Checked [] s h = passed tt
check_declared-Checked ((name, value) ∷ ps) s h =
    check_value-Checked (check s.properties name value) _ s λ known.
      Checked-map (λ rest. ((ground arith, ground arith, known), rest))
        (check_declared-Checked ps s (ground arith))

check_properties-Checked :
    (o : Option (List (Text × PropertyValue))) (s : Session)
    → Checked (PropertiesFit s o) s (check_properties o s)
unfolding check_properties
check_properties-Checked none s = passed tt
check_properties-Checked (some ps) s = Checked-if _ _ s λ few.
    Checked-if (exceeds s.limits ps) _ s
      λ small. Checked-map (λ all. (ltb-false few, all)) (check_declared-Checked ps s small)

check_artifacts-Checked :
    (o : Option (List ArtifactRef)) (s : Session)
    → Checked (ArtifactsFit s.limits o) s (check_artifacts o s)
unfolding check_artifacts
check_artifacts-Checked none s = passed tt
check_artifacts-Checked (some as') s = Checked-fail_if _ _ s (λ h. ground arith)

check_tombstone-Checked :
    (c : Change) (s : Session) → Checked (DeletionAllowed s c) s (check_tombstone c s)
unfolding check_tombstone
check_tombstone-Checked Change.upsert s = passed tt
check_tombstone-Checked Change.delete s = Checked-fail_if _ _ s (λ h. ground arith)

-- Passing every check is being admissible.
pub check_record-Checked :
    (e : RecordEvent) (s : Session) → Checked (IsAdmissible s e) s (check_record e s)
unfolding check_record
check_record-Checked e s =
    Checked-map
      (λ h. record {
        within_run = h.0;
        kind = h.1.0;
        note_type = h.1.1.0;
        body = h.1.1.1.0;
        properties = h.1.1.1.1.0;
        artifacts = h.1.1.1.1.1.0;
        deletion = h.1.1.1.1.1.1;
      })
      (Checked-then check_record_bound-Checked
        (Checked-then (check_object_kind-Checked e.object_kind) (
          Checked-then (check_note_type-Checked e.object_kind e.note_type) (
            Checked-then (check_body-Checked e.body) (
              Checked-then (check_properties-Checked e.properties) (
                Checked-then (check_artifacts-Checked e.artifacts)
                  (check_tombstone-Checked e.change))))))
        s)
