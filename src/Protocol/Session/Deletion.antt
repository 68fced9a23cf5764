-- ===== src/Protocol/Session/Deletion.antt =====
-- When absence may be taken for deletion: session.rs, finish.
use fieldnotes.Prelude.{of_not}
use fieldnotes.Prelude.{
  ◌≡◌, ◌≢◌, ◌↔◌, refl, sym, ap, ◌∙◌, subst, Text, option_text_eq, option_text_eq_iff, Bool, true,
  false, not, ◌||◌, Option, none, some, List, [], ◌∷◌, arith,
}
use fieldnotes.Protocol.Message.{SnapshotAuthority, SnapshotState, CollectionMode}
use fieldnotes.Protocol.Session.State.{Session, is_some}
use fieldnotes.Protocol.Session.Checkpoints.{is_snapshot}
use fieldnotes.Protocol.Session.Finish.{
  ExitObservation, is_normal, DeletionRefusal, authorized, push_if, claim_reasons, pushed_reasons,
  insert_sorted, sort, dedup, authorization, deletion_of, finish, is_authoritative, is_complete,
  authority_not_declared, not_snapshot_mode, error_diagnostic, non_zero_exit, protocol_violation,
  windowed_run,
}

-- What `finish` asks for before a Note may be removed because a run did not report it. The claim is the
-- last one that was accepted, of the final checkpoint or of one before it.
pub record MayDelete (s : Session) (exit : ExitObservation) (scope : Text) : Type 0 where
  pub authority : s.manifest.snapshot ≡ SnapshotAuthority.authoritative
  pub mode : s.mode ≡ CollectionMode.snapshot
  pub requested : s.snapshot_scope ≡ some scope
  pub claim : s.final_claim ≡ some (scope, SnapshotState.complete)
  pub closed : is_some s.final_checkpoint_seq ≡ true
  pub committed : s.final_claim_committed ≡ true
  pub no_error : s.error_diagnostic ≡ false
  pub normal : is_normal exit ≡ true
  pub no_violation : s.rejected ≡ false
  pub no_window : s.windowed ≡ false

insert_sorted-ne : (r : DeletionRefusal) (rs : List DeletionRefusal) → insert_sorted r rs ≢ []
unfolding insert_sorted
insert_sorted-ne r [] e = ground arith
insert_sorted-ne r (x ∷ xs) e = ground arith

sort-nil : (rs : List DeletionRefusal) → sort rs ≡ [] → rs ≡ []
unfolding sort
sort-nil [] e = refl
sort-nil (r ∷ rs) e = absurd (insert_sorted-ne r (sort rs) e)

dedup-nil : (rs : List DeletionRefusal) → dedup rs ≡ [] → rs ≡ []
unfolding dedup
dedup-nil [] e = refl
dedup-nil (r ∷ rs) e = cc

authorization_iff :
    (rs : List DeletionRefusal) (o : Option Text) (scope : Text)
    → (authorization (dedup (sort rs)) o ≡ authorized scope) ↔ ((rs ≡ []) × (o ≡ some scope))
authorization_iff rs o scope = (
  λ h. to (dedup (sort rs)) o refl h,
  λ h. rw (h.0, h.1) (unfold authorization dedup sort in refl),
)
  where
    to :
        (xs : List DeletionRefusal) (o : Option Text)
        → dedup (sort rs) ≡ xs
        → authorization xs o ≡ authorized scope
        → (rs ≡ []) × (o ≡ some scope)
    to [] (some t) e h = (sort-nil rs (dedup-nil (sort rs) e), unfold authorization in ground arith)
    to [] none e h = unfold authorization in cc
    to (x ∷ xs) o e h = unfold authorization in cc

push_if-nil :
    (b : Bool) (r : DeletionRefusal) (rs : List DeletionRefusal)
    → push_if b r rs ≡ []
    → (b ≡ false) × (rs ≡ [])
push_if-nil true r rs e = cc
push_if-nil false r rs e = (refl, e)

-- What the claim itself contributes.
record ClaimHolds (s : Session) : Type 0 where
  scope : Text
  claim : s.final_claim ≡ some (scope, SnapshotState.complete)
  requested : s.snapshot_scope ≡ some scope
  closed : is_some s.final_checkpoint_seq ≡ true
  committed : s.final_claim_committed ≡ true

complete_of : (t : SnapshotState) → not (is_complete t) ≡ false → t ≡ SnapshotState.complete
complete_of t h = ground arith

claim_reasons-nil :
    (s : Session) (c : Option (Text × SnapshotState)) (rest : List DeletionRefusal)
    → s.final_claim ≡ c
    → claim_reasons s c rest ≡ []
    → ClaimHolds s × (rest ≡ [])
unfolding claim_reasons
claim_reasons-nil s none rest e h = cc
claim_reasons-nil s (some (scope, state)) rest e h =
    let (partial', h₁) = push_if-nil (not (is_complete state)) _ _ h in
    let (mismatch, h₂) = push_if-nil (not (option_text_eq s.snapshot_scope (some scope))) _ _ h₁ in
    let (not_final, h₃) = push_if-nil (not (is_some s.final_checkpoint_seq)) _ _ h₂ in
    let (uncommitted, h₄) = push_if-nil (not s.final_claim_committed) _ _ h₃ in
    (
      record {
        scope = scope;
        claim = e ∙ ap (λ t. some (scope, t)) (complete_of state partial');
        requested = (option_text_eq_iff s.snapshot_scope (some scope)).0 (of_not _ mismatch);
        closed = of_not _ not_final;
        committed = of_not _ uncommitted;
      },
      h₄,
    )

mode_of : (b c : Bool) → not b || not c ≡ false → b ≡ true
mode_of b c h = ground arith

snapshot_of : (m : CollectionMode) → is_snapshot m ≡ true → m ≡ CollectionMode.snapshot
snapshot_of m h = ground arith

authority_of :
    (a : SnapshotAuthority) → not (is_authoritative a) ≡ false → a ≡ SnapshotAuthority.authoritative
authority_of a h = ground arith

some_of : {A : Type 0} (a b : A) (o : Option A) → o ≡ some a → o ≡ some b → a ≡ b
some_of a b o h k = cc

pushed_reasons-nil :
    (s : Session) (exit : ExitObservation) (scope : Text)
    → pushed_reasons s exit ≡ []
    → s.snapshot_scope ≡ some scope
    → MayDelete s exit scope
unfolding pushed_reasons
pushed_reasons-nil s exit scope h wanted =
    let (undeclared, h₁) = push_if-nil (not (is_authoritative s.manifest.snapshot)) _ _ h in
    let (other_mode, h₂) =
      push_if-nil (not (is_snapshot s.mode) || not (is_some s.snapshot_scope)) _ _ h₁ in
    let (holds, h₃) = claim_reasons-nil s s.final_claim _ refl h₂ in
    let (error, h₄) = push_if-nil s.error_diagnostic _ _ h₃ in
    let (abnormal, h₅) = push_if-nil (not (is_normal exit)) _ _ h₄ in
    let (violated, h₆) = push_if-nil s.rejected _ _ h₅ in
    let (windowed, h₇) = push_if-nil s.windowed _ _ h₆ in
    record {
      authority = authority_of _ undeclared;
      mode = snapshot_of _ (mode_of _ _ other_mode);
      requested = wanted;
      claim =
          holds.claim
          ∙ ap (λ t. some (t, SnapshotState.complete))
              (some_of holds.scope scope s.snapshot_scope holds.requested wanted);
      closed = holds.closed;
      committed = holds.committed;
      no_error = error;
      normal = of_not _ abnormal;
      no_violation = violated;
      no_window = windowed;
    }

nil-push_if :
    (b : Bool) (r : DeletionRefusal) (rs : List DeletionRefusal)
    → b ≡ false
    → rs ≡ []
    → push_if b r rs ≡ []
nil-push_if b r rs h k = rw (h, k)

nil-claim_reasons :
    (s : Session) (scope : Text) (rest : List DeletionRefusal)
    → s.snapshot_scope ≡ some scope
    → is_some s.final_checkpoint_seq ≡ true
    → s.final_claim_committed ≡ true
    → rest ≡ []
    → claim_reasons s (some (scope, SnapshotState.complete)) rest ≡ []
unfolding claim_reasons
nil-claim_reasons s scope rest wanted closed committed h =
    nil-push_if _ _ _ (ap not ((option_text_eq_iff _ _).1 wanted))
      (nil-push_if _ _ _ (ap not closed) (nil-push_if _ _ _ (ap not committed) h))

nil-pushed_reasons :
    (s : Session) (exit : ExitObservation) (scope : Text)
    → MayDelete s exit scope
    → pushed_reasons s exit ≡ []
unfolding pushed_reasons
nil-pushed_reasons s exit scope m =
    let no_window' = nil-push_if s.windowed windowed_run [] m.no_window refl in
    let no_violation' = nil-push_if s.rejected protocol_violation _ m.no_violation no_window' in
    let normal' =
      nil-push_if (not (is_normal exit)) non_zero_exit _ (ap not m.normal) no_violation' in
    let no_error' = nil-push_if s.error_diagnostic error_diagnostic _ m.no_error normal' in
    let claim' =
      subst
        (λ c.
          claim_reasons s c (
            push_if s.error_diagnostic error_diagnostic (
              push_if (not (is_normal exit)) non_zero_exit
                (push_if s.rejected protocol_violation (push_if s.windowed windowed_run []))))
          ≡ [])
        (sym m.claim) (nil-claim_reasons s scope _ m.requested m.closed m.committed no_error') in
    let mode' =
      nil-push_if (not (is_snapshot s.mode) || not (is_some s.snapshot_scope)) not_snapshot_mode _
        (rw (m.mode, m.requested)) claim' in
    nil-push_if (not (is_authoritative s.manifest.snapshot)) authority_not_declared _
      (rw m.authority) mode'

-- A run authorizes deletion in a scope exactly when all of these hold: the manifest declares
-- authoritative snapshots, the run is an unwindowed snapshot run for that scope, the last claim that
-- it accepted is complete for that scope, a final checkpoint was accepted, its commit is on record,
-- no error diagnostic and no violation occurred, and the process exited with status 0.
pub authorized_iff :
    (s : Session) (exit : ExitObservation) (scope : Text)
    → ((finish s exit).deletion ≡ authorized scope) ↔ MayDelete s exit scope
unfolding finish deletion_of
authorized_iff s exit scope = (
  (λ h.
      let (none', wanted) =
        (authorization_iff (pushed_reasons s exit) s.snapshot_scope scope).0 h in
      pushed_reasons-nil s exit scope none' wanted),
  λ m.
      (authorization_iff (pushed_reasons s exit) s.snapshot_scope scope).1
        (nil-pushed_reasons s exit scope m, m.requested),
)
