-- ===== src/Web/Trail.antt =====
-- internal/handler/audit_helpers.go: what a handler writes into the audit log.
pub mod Order
pub mod Changes
use Prim.Native.String.{◌++◌}
use rentcar_backend.Base.{
  ℕ, ◌==◌, string_eq, if◌then◌else◌, Bool, ◌||◌, String, List, [], ◌∷◌, Option, none, some,
}
use rentcar_backend.Store.{Action, pure}
use rentcar_backend.Middleware.Access.{Caller}
use rentcar_backend.Notices.Audits.{Json, AuditInput, create_log}
use rentcar_backend.Web.Json.{
  Value, Items, Fields, text, array, object, nil, cons, end, field, same, value_of, text_ltb,
  sorted, sorted_fields, marshal,
}
use rentcar_backend.Web.Replies.{Context, given}

-- `auditChange`, by the name of its field
pub record AuditChange : Type 0 where
  pub field_name : String
  pub before : Value
  pub after : Value

-- `actorIDPtr` and `actorIDValue`
abbrev pub actor_id : Context → Option ℕ
actor_id c = elim c.caller [ none ↦ none | some caller ↦ some caller.user_id ]

abbrev pub actor_id_value : Context → ℕ
actor_id_value c = elim c.caller [ none ↦ 0 | some caller ↦ caller.user_id ]

abbrev pub is_ignored : String → Bool
is_ignored key = key == "created_at" || key == "updated_at"

-- A set of keys as the list of them in order.
abbrev pub insert_key : String → List String → List String
insert_key k [] = k ∷ []
insert_key k (l ∷ ls) =
    let rest = insert_key k ls in
    if l == k then l ∷ ls else if text_ltb k l then k ∷ l ∷ ls else l ∷ rest

-- The keys of an object that are not ignored, put into a set.
abbrev pub add_keys : Fields → List String → List String
add_keys end keys = keys
add_keys (field k v fs) keys = add_keys fs (if is_ignored k then keys else insert_key k keys)

-- The loop over the ordered keys.
abbrev pub changes_of : Fields → Fields → List String → List AuditChange
changes_of before after [] = []
changes_of before after (k ∷ ks) =
    let rest = changes_of before after ks in
    let b = value_of k before in
    let a = value_of k after in
    if same b a then rest else record { field_name = k; before = b; after = a } ∷ rest

-- The changes between two objects.
unfoldable pub changes_between : Fields → Fields → List AuditChange
changes_between before after = changes_of before after (add_keys after (add_keys before []))

-- `auditChanges`; nil is no object.
unfoldable pub audit_changes : Option Fields → Option Fields → List AuditChange
unfolding changes_between
audit_changes none after = []
audit_changes (some b) none = []
audit_changes (some b) (some a) = changes_between b a

abbrev change_value : AuditChange → Value
change_value c = object (
    field "field" (text c.field_name)
      (field "before" (sorted c.before) (field "after" (sorted c.after) end)))

abbrev change_items : List AuditChange → Items
change_items [] = nil
change_items (c ∷ cs) = cons (change_value c) (change_items cs)

abbrev changes_field : List AuditChange → Fields
changes_field [] = end
changes_field (c ∷ cs) = field "changes" (array (change_items (c ∷ cs))) end

abbrev object_if : String → Option Fields → Fields → Fields
object_if key none rest = rest
object_if key (some fs) rest = field key (object fs) rest

-- `auditMetadata`: the keys of the payload, a map, are sorted.
unfoldable pub audit_metadata : Option Fields → Option Fields → String
unfolding audit_changes
audit_metadata before after = marshal (
    object (
      object_if "after" after
        (object_if "before" before (changes_field (audit_changes before after)))))

-- `audit`, of a handler that has the service or not
unfoldable pub audit : Json → Bool → Context → String → String → ℕ → String → Action (Unit {0})
audit json has c action entity id metadata = given has (
    create_log json (record {
      actor_id = actor_id c;
      action = action;
      entity_type = entity;
      entity_id = some id;
      metadata = metadata;
      ip_address = c.client_ip;
      user_agent = c.user_agent;
    }))
