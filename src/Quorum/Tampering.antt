-- ===== src/Quorum/Tampering.antt =====
-- The integrity check of payloads: what two payloads with one hash may differ in.
use Prim.Native.String.{String}
use zk_payroll_sdk.Prelude.{◌≡◌, refl, none, List, [], ◌∷◌, arith}
use zk_payroll_sdk.Prelude.Text.{str_eq_refl}
use zk_payroll_sdk.Quorum.{
  Platform, object, Fields, end, field, structured, project, project_fields, get_field, keys,
  sort_keys, compute_payload_hash,
}

-- The filter lets nothing through from an object that has none of the allowed keys.
get_field-project :
    (k : String) (allowed : List String) (fs : Fields)
    → get_field k fs ≡ none
    → get_field k (project_fields allowed fs) ≡ none
unfolding project_fields
get_field-project k allowed end h = refl
get_field-project k allowed (field j v fs) h = ground (arith, get_field-project k allowed fs)

nested_key-project :
    (k : String) (inner : Fields)
    → get_field k inner ≡ none
    → project (sort_keys (keys (field k (object inner) end))) (object (field k (object inner) end))
      ≡ object (field k (object end) end)
unfolding project sort_keys keys
nested_key-project k inner h = ground (arith, get_field-project k (k ∷ []) inner h, str_eq_refl k)

-- The payload hash does not see what is nested: two payloads `{ k: inner }` with the same key `k`
-- have the same hash as soon as neither inner object has a property named `k`, whatever their
-- properties and values are. So the check for a stale or tampered payload cannot tell them apart.
pub payload_hash_ignores_nested :
    (p : Platform) (k : String) (inner inner' : Fields)
    → get_field k inner ≡ none
    → get_field k inner' ≡ none
    → compute_payload_hash p (structured (field k (object inner) end))
      ≡ compute_payload_hash p (structured (field k (object inner') end))
unfolding compute_payload_hash
payload_hash_ignores_nested p k inner inner' h h' =
    cc (nested_key-project k inner h, nested_key-project k inner' h')
