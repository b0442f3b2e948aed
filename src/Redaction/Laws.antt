-- ===== src/Redaction/Laws.antt =====
-- What redaction of a JSON tree leaves, and what it keeps.
use mathlib.Core.Path.{subst}
use morpho_research_os.Prelude.{
  ◌≡◌, ◌↔◌, refl, ap, Bool, true, false, Bool-cases, inl, inr, ◌⊎◌, String,
}
use morpho_research_os.Redaction.{
  Json, null, boolean, number, text, array, object, Items, nil, cons, Fields, end, field, mask,
  is_sensitive_key, redact_json, redact_items, redact_fields,
}

-- No key that looks sensitive has a value other than null and the replacement, at any depth.
mutual
  pub data IsClean : Json → Type 0 where
    clean_null : IsClean null
    clean_boolean : {b : Bool} → IsClean (boolean b)
    clean_number : {n : String} → IsClean (number n)
    clean_text : {s : String} → IsClean (text s)
    clean_array : {items : Items} → AllClean items → IsClean (array items)
    clean_object : {fields : Fields} → FieldsClean fields → IsClean (object fields)

  pub data AllClean : Items → Type 0 where
    clean_nil : AllClean nil
    clean_cons : {v : Json} {items : Items} → IsClean v → AllClean items → AllClean (cons v items)

  pub data FieldsClean : Fields → Type 0 where
    clean_end : FieldsClean end
    clean_masked :
        {key : String} {v : Json} {fields : Fields}
        → is_sensitive_key key ≡ true
        → (v ≡ null) ⊎ (v ≡ text "[redacted]")
        → FieldsClean fields
        → FieldsClean (field key v fields)
    clean_field :
        {key : String} {v : Json} {fields : Fields}
        → is_sensitive_key key ≡ false
        → IsClean v
        → FieldsClean fields
        → FieldsClean (field key v fields)

mask_cases : (v : Json) → (mask v ≡ null) ⊎ (mask v ≡ text "[redacted]")
mask_cases null = inl refl
mask_cases (boolean b) = inr refl
mask_cases (number n) = inr refl
mask_cases (text s) = inr refl
mask_cases (array items) = inr refl
mask_cases (object fields) = inr refl

mask_kept : (v : Json) → (v ≡ null) ⊎ (v ≡ text "[redacted]") → mask v ≡ v
mask_kept v (inl e) = rw e refl
mask_kept v (inr e) = rw e refl

mutual
  unfolding redact_json

  IsClean-json : (v : Json) → IsClean (redact_json v)
  IsClean-json null = clean_null
  IsClean-json (boolean b) = clean_boolean
  IsClean-json (number n) = clean_number
  IsClean-json (text s) = clean_text
  IsClean-json (array items) = clean_array (AllClean-items items)
  IsClean-json (object fields) = clean_object (FieldsClean-fields fields)

  AllClean-items : (items : Items) → AllClean (redact_items items)
  AllClean-items nil = clean_nil
  AllClean-items (cons v items) = clean_cons (IsClean-json v) (AllClean-items items)

  FieldsClean-fields : (fields : Fields) → FieldsClean (redact_fields fields)
  FieldsClean-fields end = clean_end
  FieldsClean-fields (field key v fields) =
      let inside = IsClean-json v in
      let rest = FieldsClean-fields fields in
      elim (Bool-cases (is_sensitive_key key)) [
        | inl e ↦ rw e (clean_masked e (mask_cases v) rest)
        | inr e ↦ rw e (clean_field e inside rest)
      ]

mutual
  unfolding redact_json

  kept_json : {v : Json} → IsClean v → redact_json v ≡ v
  kept_json clean_null = refl
  kept_json clean_boolean = refl
  kept_json clean_number = refl
  kept_json clean_text = refl
  kept_json (clean_array h) = ap array (kept_items h)
  kept_json (clean_object h) = ap object (kept_fields h)

  kept_items : {items : Items} → AllClean items → redact_items items ≡ items
  kept_items clean_nil = refl
  kept_items (clean_cons h k) = rw (kept_json h, kept_items k) refl

  kept_fields : {fields : Fields} → FieldsClean fields → redact_fields fields ≡ fields
  kept_fields clean_end = refl
  kept_fields (clean_masked e m k) = rw (e, mask_kept _ m, kept_fields k) refl
  kept_fields (clean_field e h k) = rw (e, kept_json h, kept_fields k) refl

-- After redaction no sensitive key has a value other than null and "[redacted]", at any depth, and
-- redaction changes nothing in exactly the trees of which this holds already.
pub redact_json-IsClean : (v : Json) → IsClean (redact_json v) × ((redact_json v ≡ v) ↔ IsClean v)
redact_json-IsClean v = (IsClean-json v, (λ e. subst IsClean e (IsClean-json v), kept_json))
