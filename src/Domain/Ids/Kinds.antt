-- ===== src/Domain/Ids/Kinds.antt =====
-- ids.rs: the text of a record ID parses to the ID that it shows, and no other text does.
use fieldnotes.Prelude.{
  ◌≡◌, ◌↔◌, refl, ap, ◌∙◌, Text, Option, none, some, List, [], ◌∷◌, ◌++◌, strip_prefix,
}
use fieldnotes.Domain.Ids.{valid, invalid, Uuid7, show_uuid, parse_uuid, IdResult}
use fieldnotes.Domain.Ids.{
  RecordKind, instance_kind, note, extraction, observation, entity, relationship, proposal,
  package_kind, conflict, all_kinds, prefix, RecordId, with_kind, parse_among, parse_record_id,
  show_record_id,
}
use fieldnotes.Domain.Ids.RoundTrip.{strip_prefix-some}
use fieldnotes.Domain.Ids.Uuids.{IsUuid}
use fieldnotes.Domain.Ids.UuidText.{parse_uuid_iff}

with_kind-valid :
    (k : RecordKind) (r : IdResult Uuid7) (id : RecordId)
    → with_kind k r ≡ valid id
    → (k ≡ id.kind) × (r ≡ valid id.uuid)
unfolding with_kind
with_kind-valid k (invalid e) id h = cc
with_kind-valid k (valid u) id h =
    let same : record { kind = k; uuid = u } ≡ id = cc in
    (ap (λ i. i.kind) same, ap (λ i. valid i.uuid) same)

parse_among-valid :
    (ks : List RecordKind) (t : Text) (id : RecordId)
    → parse_among ks t ≡ valid id
    → (rest : Text) × (t ≡ prefix id.kind ++ rest) × (parse_uuid rest ≡ valid id.uuid)
unfolding parse_among
parse_among-valid [] t id h = cc
parse_among-valid (k ∷ ks) t id h =
    go (strip_prefix (prefix k) t) refl (parse_among-valid ks t id) h
  where
    go :
        (o : Option Text)
        → strip_prefix (prefix k) t ≡ o
        → (parse_among ks t ≡ valid id
            → (rest : Text) × (t ≡ prefix id.kind ++ rest) × (parse_uuid rest ≡ valid id.uuid))
        → elim o [ none ↦ parse_among ks t | some rest ↦ with_kind k (parse_uuid rest) ] ≡ valid id
        → (rest : Text) × (t ≡ prefix id.kind ++ rest) × (parse_uuid rest ≡ valid id.uuid)
    go none p later e = later e
    go (some rest) p later e =
        let (same, uuid) = with_kind-valid k (parse_uuid rest) id e in
        (rest, strip_prefix-some (prefix k) t rest p ∙ ap (λ k'. prefix k' ++ rest) same, uuid)

-- No other prefix of a kind stands in front of a kind's IDs.
prefix_decides :
    (k : RecordKind) (t : Text) → parse_record_id (prefix k ++ t) ≡ with_kind k (parse_uuid t)
unfolding parse_record_id parse_among prefix strip_prefix
prefix_decides instance_kind t = refl
prefix_decides note t = refl
prefix_decides extraction t = refl
prefix_decides observation t = refl
prefix_decides entity t = refl
prefix_decides relationship t = refl
prefix_decides proposal t = refl
prefix_decides package_kind t = refl
prefix_decides conflict t = refl

-- A text parses to a record ID exactly when it is the text of that ID, whose UUID has sixteen bytes,
-- version 7 and the variant `10`.
pub parse_record_id_iff :
    (t : Text) (id : RecordId)
    → (parse_record_id t ≡ valid id) ↔ ((t ≡ show_record_id id) × IsUuid id.uuid)
unfolding parse_record_id show_record_id
parse_record_id_iff t id = (
  (λ h.
      let (rest, e, read) = parse_among-valid all_kinds t id h in
      let (shown, v) = (parse_uuid_iff rest id.uuid).0 read in
      (e ∙ ap (λ s. prefix id.kind ++ s) shown, v)),
  λ (e, v).
      ap parse_record_id e
      ∙ prefix_decides id.kind (show_uuid id.uuid)
      ∙ ap (with_kind id.kind) ((parse_uuid_iff (show_uuid id.uuid) id.uuid).1 (refl, v))
      ∙ (unfold with_kind in refl),
)
