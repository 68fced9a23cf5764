-- ===== src/Domain/Ids/Instants.antt =====
-- ids.rs: the creation instant of a new UUID.
use fieldnotes.Prelude.{
  ℕ, zero, suc, ◌<◌, ◌≡◌, refl, false, List, [], ◌∷◌, ◌++◌, length, leb, arith, ◌^◌, length-take,
  length-drop, All-append, All-take, All-drop, drop, get_or,
}
use fieldnotes.Domain.Ids.{valid, Uuid7, show_uuid, parse_uuid}
use fieldnotes.Domain.Ids.RoundTrip.{IsBytes}
use fieldnotes.Domain.Ids.{low_bytes, random_part, from_parts, from_be_bytes, unix_millis}
use fieldnotes.Domain.Ids.Uuids.{IsUuid}
use fieldnotes.Domain.Ids.UuidText.{parse_uuid_iff}

instant_of_bytes : (ms : ℕ) → ms < 2 ^ 48 → from_be_bytes 0 (low_bytes ms) ≡ ms
unfolding from_be_bytes low_bytes
instant_of_bytes ms h = omega (arith, h)

byte_of : (random : List ℕ) (i : ℕ) → IsBytes random → get_or random i 0 < 256
byte_of [] i h = omega arith
byte_of (x ∷ xs) zero h = h.0
byte_of (x ∷ xs) (suc i) h = byte_of xs i h.1

-- A UUID that holds an instant.
pub record Holds (ms : ℕ) (u : Uuid7) : Type 0 where
  pub is_uuid : IsUuid u
  pub instant : unix_millis u ≡ ms
  pub shown : parse_uuid (show_uuid u) ≡ valid u

built :
    (ms : ℕ) (random : List ℕ)
    → length random ≡ 10
    → IsBytes random
    → IsUuid (record { bytes = low_bytes ms ++ random_part random })
unfolding low_bytes random_part
built ms random ten h = record {
  fits =
      All-append (λ b. b < 256) (low_bytes ms) (random_part random)
        (omega arith, (omega arith, (omega arith, (omega arith, (omega arith, (omega arith, tt))))))
        (
          omega arith,
          (
            byte_of random 1 h,
            (
              omega arith,
              All-take (λ b. b < 256) 7 (drop 3 random) (All-drop (λ b. b < 256) 3 random h),
            ),
          ),
        );
  many = omega (arith, length-take 7 (drop 3 random) (omega (arith, ten, length-drop 3 random)));
  version = omega arith;
  variant = omega arith;
}

-- From an instant below 2 ^ 48 milliseconds and ten random bytes, `from_parts` builds a UUID of version
-- 7 and variant `10` that holds this instant and that its own text parses to.
pub from_parts-Holds :
    (ms : ℕ) (random : List ℕ)
    → length random ≡ 10
    → IsBytes random
    → ms < 2 ^ 48
    → (u : Uuid7) × (from_parts ms random ≡ valid u) × Holds ms u
unfolding from_parts unix_millis
from_parts-Holds ms random ten h lt =
    let is_uuid = built ms random ten h in
    (
      _,
      rw (above) refl,
      record {
        is_uuid = is_uuid;
        instant = unfold low_bytes in (instant_of_bytes ms lt);
        shown = (parse_uuid_iff _ _).1 (refl, is_uuid);
      },
    )
  where
    above : leb (2 ^ 48) ms ≡ false
    above = ground (arith, lt)
