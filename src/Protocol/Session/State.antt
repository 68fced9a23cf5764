-- ===== src/Protocol/Session/State.antt =====
-- session.rs: the session's state, and the checks that every event passes. A `&mut self` method that
-- can fail is an action `M A`: it returns its result and the state that it leaves, also when it fails.
use fieldnotes.Prelude.{
  ℕ, ◌+◌, Text, text_eq, Bool, true, false, not, Option, none, some, List, [], ◌∷◌, ltb, leb, ◌==◌,
  ◌&&◌, if◌then◌else◌,
}
use fieldnotes.Domain.Stems.{FieldStemRegistry}
use fieldnotes.Protocol.Codes as Codes
use fieldnotes.Protocol.Codes.{
  RejectionCode, Result, ok, err, protocol_duplicate_seq, protocol_seq_regression, protocol_seq_gap,
  protocol_unexpected_order,
}
use fieldnotes.Protocol.Limits.{Limits}
use fieldnotes.Protocol.Message.{Manifest, CollectionMode, CollectRequest, SnapshotState}
use fieldnotes.Protocol.Declared.{DeclaredPropertyIndex, index_of}

pub record CheckpointOffer : Type 0 where
  pub seq : ℕ
  pub cursor : Text
  pub cursor_format_version : ℕ
  pub covers_record_seq_through : ℕ
  pub is_final : Bool

pub record CommittedCursor : Type 0 where
  pub cursor : Text
  pub cursor_format_version : ℕ
  pub covers_record_seq_through : ℕ

-- A source key: the scope and the identity within it.
abbrev pub Key : Type 0
Key = Text × Text

-- CollectSession. A set of sequence numbers is its ascending list; `seen_keys` is an association list.
pub record Session : Type 0 where
  pub manifest : Manifest
  pub properties : DeclaredPropertyIndex
  pub mode : CollectionMode
  pub snapshot_scope : Option Text
  pub windowed : Bool
  pub limits : Limits
  pub media_type_policy : List Text
  pub run_id : Text
  pub last_seq : ℕ
  pub record_count : ℕ
  pub diagnostic_count : ℕ
  pub records_by_seq : List ℕ
  pub durable_seqs : List ℕ
  pub committed : Option CommittedCursor
  pub last_committed_coverage : ℕ
  pub last_checkpoint_coverage : ℕ
  pub pending_offer : Option CheckpointOffer
  pub seen_keys : List (Key × Text)
  pub error_diagnostic : Bool
  pub rejected : Bool
  pub final_checkpoint_seq : Option ℕ
  pub final_claim : Option (Text × SnapshotState)
  pub final_claim_committed : Bool
  pub staged_bytes : ℕ

-- BTreeSet<u64>
unfoldable pub insert : ℕ → List ℕ → List ℕ
insert q [] = q ∷ []
insert q (x ∷ xs) = if ltb q x then q ∷ x ∷ xs else if q == x then x ∷ xs else x ∷ insert q xs

unfoldable pub contains : List ℕ → ℕ → Bool
contains [] q = false
contains (x ∷ xs) q = if x == q then true else contains xs q

-- The members from `lo` to `hi`, both included.
unfoldable pub range : ℕ → ℕ → List ℕ → List ℕ
range lo hi [] = []
range lo hi (x ∷ xs) = let rest = range lo hi xs in if leb lo x && leb x hi then x ∷ rest else rest

-- BTreeMap over source keys
unfoldable pub get_key : List (Key × Text) → Key → Option Text
get_key [] k = none
get_key ((j, v) ∷ rest) k = if text_eq j.0 k.0 && text_eq j.1 k.1 then some v else get_key rest k

unfoldable pub insert_key : Key → Text → List (Key × Text) → List (Key × Text)
insert_key k v [] = (k, v) ∷ []
insert_key k v ((j, w) ∷ rest) =
    if text_eq j.0 k.0 && text_eq j.1 k.1 then (j, v) ∷ rest else (j, w) ∷ insert_key k v rest

abbrev pub is_some {ℓ} : {A : Type ℓ} → Option A → Bool
is_some none = false
is_some (some a) = true

-- The session that CollectSession::new builds.
unfoldable pub initial : CollectRequest → Manifest → DeclaredPropertyIndex → Session
initial request manifest properties = record {
  manifest = manifest;
  properties = properties;
  mode = request.mode;
  snapshot_scope = request.snapshot_scope;
  windowed = is_some request.window;
  limits = request.limits;
  media_type_policy = request.artifact_media_types;
  run_id = request.run_id;
  last_seq = 0;
  record_count = 0;
  diagnostic_count = 0;
  records_by_seq = [];
  durable_seqs = [];
  committed = none;
  last_committed_coverage = 0;
  last_checkpoint_coverage = 0;
  pending_offer = none;
  seen_keys = [];
  error_diagnostic = false;
  rejected = false;
  final_checkpoint_seq = none;
  final_claim = none;
  final_claim_committed = false;
  staged_bytes = 0;
}

-- CollectSession::new
unfoldable pub new : CollectRequest → Manifest → FieldStemRegistry → Result Session
unfolding initial
new request manifest stems =
    Codes.◌>>=◌ (index_of manifest stems) λ properties. ok (initial request manifest properties)

-- CollectSession::with_current_state
unfoldable pub with_current_state : List (Key × Text) → Session → Session
with_current_state state s = record s { seen_keys = state }

abbrev pub M : Type 0 → Type 0
M A = Session → Result A × Session

abbrev pub continue : {A B : Type 0} → Result A → (A → M B) → M B
continue (ok a) f s = f a s
continue (err c) f s = (err c, s)

infixl 5 ◌>>=◌ ◌>>◌
abbrev pub ◌>>=◌ : {A B : Type 0} → M A → (A → M B) → M B
◌>>=◌ m f s = continue (m s).0 f (m s).1

abbrev pub ◌>>◌ : {A : Type 0} → M (Unit {0}) → M A → M A
check >> next = check >>= λ _. next

abbrev pub pure : {A : Type 0} → A → M A
pure a s = (ok a, s)

-- A result that leaves the session alone, also when it is an error.
abbrev pub lift : {A : Type 0} → Result A → M A
lift r s = (r, s)

-- `return Err(self.fail(code, ..))`
abbrev pub fail : {A : Type 0} → RejectionCode → M A
fail code s = (err code, record s { rejected = true })

-- `if test { return Err(self.fail(code, ..)) }`
abbrev pub fail_if : Bool → RejectionCode → M (Unit {0})
fail_if true code = fail code
fail_if false code = pure tt

unfoldable pub advance_seq : ℕ → M (Unit {0})
advance_seq seq s =
    if seq == s.last_seq
    then fail protocol_duplicate_seq s
    else if ltb seq s.last_seq
    then fail protocol_seq_regression s
    else if not (seq == s.last_seq + 1)
    then fail protocol_seq_gap s
    else (ok tt, record s { last_seq = seq })

unfoldable pub check_run_id : Text → M (Unit {0})
check_run_id run_id s = fail_if (not (text_eq run_id s.run_id)) protocol_unexpected_order s

unfoldable pub check_not_after_final : M (Unit {0})
check_not_after_final s = fail_if (is_some s.final_checkpoint_seq) protocol_unexpected_order s

-- The highest durable record with no undurable record below it, over the ascending records.
unfoldable pub durable_prefix : List ℕ → List ℕ → ℕ → ℕ
durable_prefix durable [] highest = highest
durable_prefix durable (q ∷ qs) highest =
    let next = durable_prefix durable qs q in if contains durable q then next else highest

-- CollectSession::durable_through
unfoldable pub durable_through : Session → ℕ
unfolding durable_prefix
durable_through s = durable_prefix s.durable_seqs s.records_by_seq 0
