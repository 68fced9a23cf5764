-- ===== src/Protocol/Artifact/Verified.antt =====
-- artifact.rs, resolve_staged: what a resolved staged artifact has been checked for.
use fieldnotes.Prelude.{append_assoc, append_nil, of_not}
use fieldnotes.Prelude.{
  ℕ, ◌+◌, ◌≤◌, ◌<◌, ◌≡◌, ◌⊎◌, inl, inr, refl, sym, ap, ◌∙◌, subst, Text, text_eq_sound, Bool, true,
  false, not, ◌||◌, Option, none, some, List, [], ◌∷◌, ◌++◌, arith, length, length-append, ltb,
  ◌==◌, saturating_add, u64_max, saturating_add-le,
}
use fieldnotes.Protocol.Codes.{RejectionCode, Result, ok, err, refuse_if, ◌>>=◌, ◌>>◌}
use fieldnotes.Protocol.Limits.{Limits}
use fieldnotes.Protocol.Message.{ArtifactRef}
use fieldnotes.Protocol.Artifact.{
  ResolvedArtifact, FileIdentity, identity_eq, Metadata, Read, bytes, failed, OpenFile, Staging,
  hex, parsed_handle, or_refuse, read_bounded, check_media_type, check_digest, open_checked,
  resolve_staged,
}

-- The contents that a sequence of reads delivers, if no read fails before the end.
abbrev pub prepend : Text → Option Text → Option Text
prepend t none = none
prepend t (some u) = some (t ++ u)

abbrev pub contents : List Read → Option Text
contents [] = some []
contents (failed ∷ rest) = none
contents (bytes [] ∷ rest) = some []
contents (bytes (b ∷ bs) ∷ rest) = prepend (b ∷ bs) (contents rest)

-- A chain of results that is ok has an ok first link.
bind_ok :
    {A B : Type 0} (r : Result A) (f : A → Result B) (b : B)
    → (r >>= f) ≡ ok b
    → (a : A) × (r ≡ ok a) × (f a ≡ ok b)
bind_ok (ok a) f b h = (a, refl, h)
bind_ok (err c) f b h = cc

refused_ok :
    {B : Type 0} (t : Bool) (c : RejectionCode) (r : Result B) (b : B)
    → (refuse_if t c >> r) ≡ ok b
    → (t ≡ false) × (r ≡ ok b)
refused_ok true c r b h = cc
refused_ok false c r b h = (refl, h)

or_refuse_ok :
    {A : Type 0} (o : Option A) (c : RejectionCode) (a : A) → or_refuse o c ≡ ok a → o ≡ some a
or_refuse_ok none c a h = ground arith
or_refuse_ok (some x) c a h = ground arith

-- What the bounded read returns: all the contents, and how long they are.
record Delivers (reads : List Read) (measured : ℕ) (hashed : Text) (n : ℕ) (h : Text) : Type 0 where
  read : Text
  whole : contents reads ≡ some read
  hashed_all : h ≡ hashed ++ read
  measured_all : n ≡ measured + length read

read_bounded-Delivers :
    (ceiling : ℕ) (reads : List Read) (measured : ℕ) (hashed : Text) (n : ℕ) (h : Text)
    → ceiling < u64_max
    → read_bounded ceiling reads measured hashed ≡ ok (n, h)
    → Delivers reads measured hashed n h
unfolding read_bounded saturating_add
read_bounded-Delivers ceiling [] measured hashed n h small e = record {
  read = [];
  whole = refl;
  hashed_all = ground (arith, append_nil hashed);
  measured_all = ground arith;
}
read_bounded-Delivers ceiling (failed ∷ rest) measured hashed n h small e = cc
read_bounded-Delivers ceiling (bytes [] ∷ rest) measured hashed n h small e = record {
  read = [];
  whole = refl;
  hashed_all = ground (arith, append_nil hashed);
  measured_all = ground arith;
}
read_bounded-Delivers ceiling (bytes (b ∷ bs) ∷ rest) measured hashed n h small e =
    let fits : ltb ceiling (saturating_add measured (length (b ∷ bs))) ≡ false = ground arith in
    let next : read_bounded ceiling rest (saturating_add measured (length (b ∷ bs)))
          (hashed ++ (b ∷ bs))
        ≡ ok (n, h) =
      ground arith in
    let later =
      read_bounded-Delivers ceiling rest (saturating_add measured (length (b ∷ bs)))
        (hashed ++ (b ∷ bs)) n h small next in
    record {
      read = (b ∷ bs) ++ later.read;
      whole = ap (prepend (b ∷ bs)) later.whole;
      hashed_all = later.hashed_all ∙ append_assoc hashed (b ∷ bs) later.read;
      measured_all = ground (arith, later.measured_all, length-append (b ∷ bs) later.read, small);
    }

identity_eq_sound : (a b : FileIdentity) → identity_eq a b ≡ true → a ≡ b
identity_eq_sound a b h = ground arith

-- The file that was opened is the regular file that the name stood for.
pub record OpensRegular (staging : Staging) (name : Text) (file : OpenFile) : Type 0 where
  pub before : Metadata
  pub after : Metadata
  pub named : staging.symlink_metadata name ≡ some before
  pub opened : staging.open_without_following name ≡ some file
  pub measured : file.metadata ≡ some after
  pub regular : (before.is_file ≡ true) × (after.is_file ≡ true)
  pub same : after.identity ≡ before.identity

of_nor : (a b : Bool) → not a || not b ≡ false → (a ≡ true) × (b ≡ true)
of_nor a b h = ground arith

open_checked-OpensRegular :
    (sha256 : Text → Text) (staging : Staging) (name : Text) (file : OpenFile)
    → open_checked sha256 staging name ≡ ok file
    → OpensRegular staging name file
unfolding open_checked
open_checked-OpensRegular sha256 staging name file h =
    let (before, h₀, k₀) = bind_ok (or_refuse (staging.symlink_metadata name) _) _ file h in
    let (regular, k₁) = refused_ok (not before.is_file) _ _ file k₀ in
    let (opened, h₂, k₂) = bind_ok (or_refuse (staging.open_without_following name) _) _ file k₁ in
    let (after, h₃, k₃) = bind_ok (or_refuse opened.metadata _) _ file k₂ in
    let (same, k₄) =
      refused_ok (not after.is_file || not (identity_eq after.identity before.identity)) _ _ file
        k₃ in
    let both = of_nor after.is_file (identity_eq after.identity before.identity) same in
    record {
      before = before;
      after = after;
      named = or_refuse_ok _ _ before h₀;
      opened = or_refuse_ok _ _ opened h₂ ∙ cc k₄;
      measured = cc (or_refuse_ok _ _ after h₃, k₄);
      regular = (of_not before.is_file regular, both.0);
      same = identity_eq_sound after.identity before.identity both.1;
    }

-- What holds of a staged reference that resolved to an artifact: some regular file and its bytes.
pub record Verified (sha256 : Text → Text) (staging : Staging) (reference : ArtifactRef)
    (limits : Limits) (a : ResolvedArtifact) : Type 0 where
  pub name : Text
  pub file : OpenFile
  pub read : Text
  pub named : parsed_handle reference ≡ ok name
  pub regular : OpensRegular staging name file
  pub complete : contents file.reads ≡ some read
  pub declared : reference.byte_length ≡ some (length read)
  pub bounded : length read ≤ limits.max_artifact_bytes
  pub byte_length : a.byte_length ≡ length read
  pub digest : a.digest ≡ hex (sha256 read)
  pub declared_digest : (reference.sha256 ≡ none) ⊎ (reference.sha256 ≡ some (hex (sha256 read)))
  pub fresh : a.reused ≡ false

digest_matches :
    (o : Option Text) (digest : Text)
    → check_digest o digest ≡ ok tt
    → (o ≡ none) ⊎ (o ≡ some digest)
unfolding check_digest
digest_matches none digest h = inl refl
digest_matches (some x) digest h = inr (ground (arith, text_eq_sound x digest))

then_ok :
    {B : Type 0} (r : Result (Unit {0})) (k : Result B) (b : B)
    → (r >> k) ≡ ok b
    → (r ≡ ok tt) × (k ≡ ok b)
then_ok (ok tt) k b h = (refl, h)
then_ok (err c) k b h = cc

-- A staged reference resolves only to the complete contents of the regular file that its handle
-- names, opened under the identity that was checked: they have the declared length, within the
-- bound, and the digest that is returned, which is the declared one if there is one. The bound on an
-- artifact is below the largest 64-bit integer.
pub resolve_staged-Verified :
    (sha256 : Text → Text) (staging : Staging) (reference : ArtifactRef) (limits : Limits)
    (media_types : List Text) (a : ResolvedArtifact)
    → limits.max_artifact_bytes + 1 < u64_max
    → resolve_staged sha256 staging reference limits media_types ≡ ok a
    → Verified sha256 staging reference limits a
unfolding resolve_staged
resolve_staged-Verified sha256 staging reference limits media_types a small h =
    let (name, h₀, k₀) = bind_ok (parsed_handle reference) _ a h in
    let (declared, h₁, k₁) = bind_ok (or_refuse reference.byte_length _) _ a k₀ in
    let (fits, k₂) = refused_ok (ltb limits.max_artifact_bytes declared) _ _ a k₁ in
    let (media, k₃) = then_ok (check_media_type media_types reference.media_type) _ a k₂ in
    let (file, h₄, k₄) = bind_ok (open_checked sha256 staging name) _ a k₃ in
    let (outcome, h₅, k₅) =
      bind_ok (read_bounded (saturating_add declared 1) file.reads 0 []) _ a k₄ in
    let (exact, k₆) = refused_ok (not (outcome.0 == declared)) _ _ a k₅ in
    let (matches, k₇) = then_ok (check_digest reference.sha256 (hex (sha256 outcome.1))) _ a k₆ in
    let v =
      read_bounded-Delivers (saturating_add declared 1) file.reads 0 [] outcome.0 outcome.1
        (below declared fits) h₅ in
    let hashed : outcome.1 ≡ v.read = v.hashed_all in
    let long : length v.read ≡ declared = ground (arith, v.measured_all) in
    record {
      name = name;
      file = file;
      read = v.read;
      named = h₀;
      regular = open_checked-OpensRegular sha256 staging name file h₄;
      complete = v.whole;
      declared = or_refuse_ok _ _ declared h₁ ∙ ap some (sym long);
      bounded = ground arith;
      byte_length = field_length outcome k₇ ∙ ground (arith, v.measured_all);
      digest = field_digest outcome k₇ ∙ ap (λ t. hex (sha256 t)) hashed;
      declared_digest =
          subst (λ t. (reference.sha256 ≡ none) ⊎ (reference.sha256 ≡ some (hex (sha256 t)))) hashed
            (digest_matches reference.sha256 (hex (sha256 outcome.1)) matches);
      fresh = field_fresh outcome k₇;
    }
  where
    below :
        (declared : ℕ)
        → ltb limits.max_artifact_bytes declared ≡ false
        → saturating_add declared 1 < u64_max
    below declared h = ground (arith, saturating_add-le declared 1)

    built : ℕ × Text → ResolvedArtifact
    built o = record { digest = hex (sha256 o.1); byte_length = o.0; reused = false }

    field_length : (o : ℕ × Text) → ok (built o) ≡ ok a → a.byte_length ≡ o.0
    field_length o e = ground arith

    field_digest : (o : ℕ × Text) → ok (built o) ≡ ok a → a.digest ≡ hex (sha256 o.1)
    field_digest o e = ground arith

    field_fresh : (o : ℕ × Text) → ok (built o) ≡ ok a → a.reused ≡ false
    field_fresh o e = ground arith
