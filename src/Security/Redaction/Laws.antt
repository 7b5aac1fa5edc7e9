-- ===== src/Security/Redaction/Laws.antt =====
-- What `redact` removes and what it keeps.
use one_year_billion.Common.{◌≡◌, inl, inr, refl, ap, Bool-cases, if◌then◌else◌, String}
use one_year_billion.Common.Json.{Json, Items, Fields}
use one_year_billion.Security.Redaction.{is_secret, redact, redact_items, redact_fields}

-- The value with the secrets replaced by others: `swap k v` stands for the value `v` of the secret
-- key `k`, at any depth.
unfoldable mutual
  unfolding is_secret

  pub replace_secrets : (String → Json → Json) → Json → Json
  replace_secrets swap (Json.object fs) = Json.object (replace_fields swap fs)
  replace_secrets swap (Json.array xs) = Json.array (replace_items swap xs)
  replace_secrets swap v = v

  pub replace_items : (String → Json → Json) → Items → Items
  replace_items swap Items.end = Items.end
  replace_items swap (Items.item x xs) = Items.item (replace_secrets swap x) (replace_items swap xs)

  pub replace_fields : (String → Json → Json) → Fields → Fields
  replace_fields swap Fields.no_fields = Fields.no_fields
  replace_fields swap (Fields.field k v fs) =
      let kept = replace_secrets swap v in
      Fields.field k (if is_secret k then swap k v else kept) (replace_fields swap fs)

mutual
  unfolding redact replace_secrets is_secret

  redact-replace :
      (swap : String → Json → Json) (v : Json) → redact (replace_secrets swap v) ≡ redact v
  redact-replace swap (Json.object fs) = ap Json.object (fields-replace swap fs)
  redact-replace swap (Json.array xs) = ap Json.array (items-replace swap xs)
  redact-replace swap Json.null = refl
  redact-replace swap (Json.bool _) = refl
  redact-replace swap (Json.int _) = refl
  redact-replace swap (Json.float _) = refl
  redact-replace swap (Json.str _) = refl

  items-replace :
      (swap : String → Json → Json) (xs : Items)
      → redact_items (replace_items swap xs) ≡ redact_items xs
  items-replace swap Items.end = refl
  items-replace swap (Items.item x xs) = rw (redact-replace swap x, items-replace swap xs) refl

  fields-replace :
      (swap : String → Json → Json) (fs : Fields)
      → redact_fields (replace_fields swap fs) ≡ redact_fields fs
  fields-replace swap Fields.no_fields = refl
  fields-replace swap (Fields.field k v fs) = elim (Bool-cases (is_secret k)) [
    | inl h ↦ rw (h, fields-replace swap fs) refl
    | inr h ↦ rw (h, redact-replace swap v, fields-replace swap fs) refl
  ]

-- Two values that differ only in what stands under secret keys, at any depth, are redacted to the
-- same value: what `redact` returns says nothing of a secret.
pub redact_hides :
    (swap : String → Json → Json) (v : Json) → redact (replace_secrets swap v) ≡ redact v
redact_hides swap v = redact-replace swap v
