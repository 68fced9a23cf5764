-- ===== src/Protocol/Session/Outcomes.antt =====
-- What a record does to a session, for session.rs's accept_record: it is rejected, or it makes one
-- known update under known conditions. Offers has the other events.
use fieldnotes.Prelude.{of_not}
use fieldnotes.Prelude.{
  ℕ, ◌+◌, ◌≡◌, inl, inr, refl, Text, text_eq, text_eq_sound, Bool, true, false, Option, none, some,
  arith, Bool-cases, ◌==◌, ltb, if◌then◌else◌,
}
use fieldnotes.Protocol.Codes.{RejectionCode, Result, ok, err}
use fieldnotes.Protocol.Message.{RecordEvent}
use fieldnotes.Protocol.Session.State.{
  Session, M, ◌>>=◌, ◌>>◌, continue, get_key, advance_seq, check_run_id, check_not_after_final,
  is_some,
}
use fieldnotes.Protocol.Session.Records.{
  Serde, AcceptedRecord, check_record, accept_record, dispose, install_record, semantic_fingerprint,
  RecordDisposition, key_of,
}
use fieldnotes.Protocol.Session.Admissible.{
  Checked, passed, rejects, IsAdmissible, check_record-Checked, Checked-fail_if,
}

abbrev pub halt : Session → Session
halt s = record s { rejected = true }

abbrev pub at_seq : ℕ → Session → Session
at_seq q s = record s { last_seq = q }

-- The continuation of a check, for a postcondition that every rejection has.
pub after_check :
    {A P : Type 0} (F : Result A × Session → Type 0) (m : M (Unit {0})) (k : M A) (s : Session)
    → Checked P s (m s)
    → ((c : RejectionCode) → F (err c, halt s))
    → (P → F (k s))
    → F ((m >> k) s)
after_check {P} F m k s h e f = go (m s) h
  where
    go : (r : Result (Unit {0}) × Session) → Checked P s r → F (continue r.0 (λ _. k) r.1)
    go r (passed p) = f p
    go r (rejects c) = e c

data Advanced (s : Session) (q : ℕ) : Result (Unit {0}) × Session → Type 0 where
  advanced : q ≡ s.last_seq + 1 → Advanced s q (ok tt, at_seq q s)
  refused : (c : RejectionCode) → Advanced s q (err c, halt s)

advance_seq-Advanced : (q : ℕ) (s : Session) → Advanced s q (advance_seq q s)
unfolding advance_seq
advance_seq-Advanced q s = elim (Bool-cases (q == s.last_seq)) [
  | inl same ↦ rw same (refused _)
  | inr other ↦ rw other (elim (Bool-cases (ltb q s.last_seq)) [
    | inl below ↦ rw below (refused _)
    | inr above ↦ rw above (elim (Bool-cases (q == s.last_seq + 1)) [
      | inl next ↦ rw next (advanced (ground arith))
      | inr gap ↦ rw gap (refused _)
    ])
  ])
]

check_run_id-Checked : (r : Text) (s : Session) → Checked (r ≡ s.run_id) s (check_run_id r s)
unfolding check_run_id
check_run_id-Checked r s =
    Checked-fail_if _ _ s (λ h. text_eq_sound r s.run_id (of_not (text_eq r s.run_id) h))

none_of : {A : Type 0} (o : Option A) → is_some o ≡ false → o ≡ none
none_of o h = ground arith

check_not_after_final-Checked :
    (s : Session) → Checked (s.final_checkpoint_seq ≡ none) s (check_not_after_final s)
unfolding check_not_after_final
check_not_after_final-Checked s = Checked-fail_if _ _ s (none_of s.final_checkpoint_seq)

-- What every event passes first: the run's name, no final checkpoint, and the next number.
pub record Starts (s : Session) (run_id : Text) (q : ℕ) : Type 0 where
  pub same_run : run_id ≡ s.run_id
  pub still_open : s.final_checkpoint_seq ≡ none
  pub next : q ≡ s.last_seq + 1

pub after_start :
    {A : Type 0} (F : Result A × Session → Type 0) (r : Text) (q : ℕ) (k : M A) (s : Session)
    → ((c : RejectionCode) → F (err c, halt s))
    → (Starts s r q → F (k (at_seq q s)))
    → F ((check_run_id r >> (check_not_after_final >> (advance_seq q >> k))) s)
after_start F r q k s e f =
    after_check F (check_run_id r) (check_not_after_final >> (advance_seq q >> k)) s
      (check_run_id-Checked r s) e
      λ same.
        after_check F check_not_after_final (advance_seq q >> k) s (check_not_after_final-Checked s)
          e λ still. go same still (advance_seq q s) (advance_seq-Advanced q s)
  where
    go :
        r ≡ s.run_id
        → s.final_checkpoint_seq ≡ none
        → (x : Result (Unit {0}) × Session) → Advanced s q x
        → F (continue x.0 (λ _. k) x.1)
    go same still x (advanced h) = f (record { same_run = same; still_open = still; next = h })
    go same still x (refused c) = e c

-- A record is installed, or rejected, or its encoding failed.
pub data Recorded (serde : Serde) (s : Session) (e : RecordEvent)
    : Result AcceptedRecord × Session → Type 0 where
  recorded :
      (fingerprint : Text) (d : RecordDisposition)
      → Starts s e.run_id e.seq
      → IsAdmissible (at_seq e.seq s) e
      → semantic_fingerprint serde e ≡ ok fingerprint
      → Recorded serde s e (install_record e fingerprint d (at_seq e.seq s))
  rejected_before : (c : RejectionCode) → Recorded serde s e (err c, halt s)
  rejected_at :
      (c : RejectionCode)
      → Starts s e.run_id e.seq
      → Recorded serde s e (err c, halt (at_seq e.seq s))
  unencoded :
      (c : RejectionCode)
      → Starts s e.run_id e.seq
      → semantic_fingerprint serde e ≡ err c
      → Recorded serde s e (err c, at_seq e.seq s)

data Disposed (s : Session) : Result RecordDisposition × Session → Type 0 where
  disposed : (d : RecordDisposition) → Disposed s (ok d, s)
  diverges : (c : RejectionCode) → Disposed s (err c, halt s)

Disposed-if :
    {s : Session} (b : Bool) {x y : Result RecordDisposition × Session}
    → Disposed s x
    → Disposed s y
    → Disposed s (if b then x else y)
Disposed-if true h k = h
Disposed-if false h k = k

dispose-Disposed :
    (e : RecordEvent) (f : Text) (o : Option Text) (s : Session) → Disposed s (dispose e f o s)
unfolding dispose
dispose-Disposed e f none s = disposed _
dispose-Disposed e f (some previous) s =
    Disposed-if _ (disposed _) (Disposed-if _ (diverges _) (disposed _))

pub accept_record-Recorded :
    (serde : Serde) (e : RecordEvent) (s : Session) → Recorded serde s e (accept_record serde e s)
unfolding accept_record
accept_record-Recorded serde e s =
    after_start (Recorded serde s e) e.run_id e.seq _ s rejected_before λ start.
      after_check (Recorded serde s e) (check_record e) _ (at_seq e.seq s)
        (check_record-Checked e (at_seq e.seq s)) (λ c. rejected_at c start)
        λ fine. encoded start fine (semantic_fingerprint serde e) refl
  where
    install : M RecordDisposition → Text → M AcceptedRecord
    install m f = m >>= λ d. install_record e f d

    chosen :
        Starts s e.run_id e.seq
        → IsAdmissible (at_seq e.seq s) e
        → (f : Text) → semantic_fingerprint serde e ≡ ok f
        → (x : Result RecordDisposition × Session) → Disposed (at_seq e.seq s) x
        → Recorded serde s e (continue x.0 (λ d. install_record e f d) x.1)
    chosen start fine f h x (disposed d) = recorded f d start fine h
    chosen start fine f h x (diverges c) = rejected_at c start

    encoded :
        Starts s e.run_id e.seq
        → IsAdmissible (at_seq e.seq s) e
        → (r : Result Text) → semantic_fingerprint serde e ≡ r
        → Recorded serde s e (
            continue r
              (λ f. (λ s'. (ok (get_key s'.seen_keys (key_of e)), s')) >>= λ o.
                dispose e f o >>= λ d. install_record e f d)
              (at_seq e.seq s))
    encoded start fine (ok f) h =
        chosen start fine f h (dispose e f (get_key s.seen_keys (key_of e)) (at_seq e.seq s))
          (dispose-Disposed e f _ _)
    encoded start fine (err c) h = unencoded c start h
