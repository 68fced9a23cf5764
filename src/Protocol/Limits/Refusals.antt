-- ===== src/Protocol/Limits/Refusals.antt =====
-- limits.rs, Limits::validate: what a refusal says.
use fieldnotes.Prelude.{
  ℕ, ◌<◌, ◌≡◌, refl, subst, Text, text, text_eq, Bool, true, false, List, [], ◌∷◌, Option, none,
  some, ltb, arith, if◌then◌else◌, All,
}
use fieldnotes.Protocol.Limits.{
  Limits, LimitError, Ceiling, ceiling_rows, ceilings, validate, validate_rows,
}
use fieldnotes.Protocol.Limits.Bounds.{schema_minimums}

-- The member of the limits that has this name.
abbrev pub member_value : Text → Limits → Option ℕ
member_value name l =
    if text_eq name (text "max_frame_bytes")
    then some l.max_frame_bytes
    else if text_eq name (text "max_body_bytes")
    then some l.max_body_bytes
    else if text_eq name (text "max_properties_per_record")
    then some l.max_properties_per_record
    else if text_eq name (text "max_property_value_bytes")
    then some l.max_property_value_bytes
    else if text_eq name (text "max_list_members")
    then some l.max_list_members
    else if text_eq name (text "max_artifacts_per_record")
    then some l.max_artifacts_per_record
    else if text_eq name (text "max_artifact_bytes")
    then some l.max_artifact_bytes
    else if text_eq name (text "max_run_artifact_bytes")
    then some l.max_run_artifact_bytes
    else if text_eq name (text "max_run_stdout_bytes")
    then some l.max_run_stdout_bytes
    else if text_eq name (text "max_run_records")
    then some l.max_run_records
    else if text_eq name (text "max_run_diagnostics")
    then some l.max_run_diagnostics
    else if text_eq name (text "max_stderr_bytes")
    then some l.max_stderr_bytes
    else if text_eq name (text "max_cursor_bytes")
    then some l.max_cursor_bytes
    else none

-- What a refusal says: the named member has this value, and the value is outside the bound, which is that
-- member of the ceilings or of the schema's minimums.
abbrev pub Blames : Limits → LimitError → Type 0
Blames l e =
    (member_value e.member l ≡ some e.value)
    × (if e.above_ceiling
        then (member_value e.member ceilings ≡ some e.bound) × (e.bound < e.value)
        else (member_value e.member schema_minimums ≡ some e.bound) × (e.value < e.bound))

-- A row of the table is what the ceilings and the schema have for its member.
abbrev Faithful : Limits → Ceiling → Type 0
Faithful l entry =
    (member_value entry.member l ≡ some (entry.read l))
    × (member_value entry.member ceilings ≡ some entry.ceiling)
    × (member_value entry.member schema_minimums ≡ some entry.minimum)

some_inj : {a b : LimitError} → some a ≡ some b → a ≡ b
some_inj h = cc

validate_rows_err :
    (rows : List Ceiling) (l : Limits) (e : LimitError)
    → All (Faithful l) rows
    → validate_rows rows l ≡ some e
    → Blames l e
unfolding validate_rows
validate_rows_err [] l e faithful h = cc
validate_rows_err (entry ∷ rest) l e ((here, above, below), faithful) h =
    go (ltb (entry.read l) entry.minimum) (ltb entry.ceiling (entry.read l)) refl refl
      (λ k. validate_rows_err rest l e faithful k) h
  where
    go :
        (low high : Bool)
        → ltb (entry.read l) entry.minimum ≡ low
        → ltb entry.ceiling (entry.read l) ≡ high
        → (validate_rows rest l ≡ some e → Blames l e)
        → (if low
            then some (record {
              member = entry.member;
              value = entry.read l;
              bound = entry.minimum;
              above_ceiling = false;
            })
            else if high
            then some (record {
              member = entry.member;
              value = entry.read l;
              bound = entry.ceiling;
              above_ceiling = true;
            })
            else validate_rows rest l)
          ≡ some e
        → Blames l e
    go true high p q later h = subst (Blames l) (some_inj h) (here, (below, ground (arith, p)))
    go false true p q later h = subst (Blames l) (some_inj h) (here, (above, ground (arith, q)))
    go false false p q later h = later h

-- A refusal names a member, its value and the bound that the value is outside of: where the refusal says
-- that it is above its ceiling, the value that `ceilings` has for the member, else the schema's minimum.
pub validate_err : (l : Limits) (e : LimitError) → validate l ≡ some e → Blames l e
unfolding validate ceilings text_eq
validate_err l e h =
    validate_rows_err ceiling_rows l e
      (
        (refl, refl, refl),
        (
          (refl, refl, refl),
          (
            (refl, refl, refl),
            (
              (refl, refl, refl),
              (
                (refl, refl, refl),
                (
                  (refl, refl, refl),
                  (
                    (refl, refl, refl),
                    (
                      (refl, refl, refl),
                      (
                        (refl, refl, refl),
                        (
                          (refl, refl, refl),
                          ((refl, refl, refl), ((refl, refl, refl), ((refl, refl, refl), tt))),
                        ),
                      ),
                    ),
                  ),
                ),
              ),
            ),
          ),
        ),
      )
      h
