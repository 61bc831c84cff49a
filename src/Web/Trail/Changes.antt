-- ===== src/Web/Trail/Changes.antt =====
-- internal/handler/audit_helpers.go: the changes of the audit log, by the fields of the two objects.
use rentcar_backend.Base.{
  ◌≡◌, refl, ap, ◌∙◌, ◌==◌, nat_eq, string_eq, if◌then◌else◌, Bool, true, false, not, ◌&&◌, ◌||◌,
  String, List, [], ◌∷◌, Option, none, some, find, exists, All, ◌≢◌, ◌↔◌, ◌⊎◌, arith, Bool-cases,
  inl, inr,
}
use rentcar_backend.Web.Json.{Fields, null, end, field, same, value_of, text_ltb}
use rentcar_backend.Web.Json.Equality.{same_iff}
use rentcar_backend.Web.Trail.{
  AuditChange, is_ignored, insert_key, add_keys, changes_of, changes_between,
}
use rentcar_backend.Web.Trail.Order.{IsAscending, insert-IsAscending}

module _ (k : String) where
  exists-insert :
      (j : String) (ls : List String)
      → exists (λ l. l == k) (insert_key j ls) ≡ (j == k || exists (λ l. l == k) ls)
  exists-insert j [] = refl
  exists-insert j (l ∷ ls) = ground (
    arith,
    string_eq.equal_iff l j,
    string_eq.equal_iff l k,
    string_eq.equal_iff j k,
    exists-insert j ls,
  )

  -- An object has the key.
  abbrev has_key : Fields → Bool
  has_key end = false
  has_key (field l v fs) = l == k || has_key fs

  exists-add_keys :
      (fs : Fields) (ls : List String)
      → exists (λ l. l == k) (add_keys fs ls)
        ≡ (has_key fs && not (is_ignored k) || exists (λ l. l == k) ls)
  exists-add_keys end ls = refl
  exists-add_keys (field l v fs) ls = ground (
    arith,
    exists-add_keys fs (if is_ignored l then ls else insert_key l ls),
    exists-insert l ls,
    string_eq.equal_iff l k,
  )

  no_key : (fs : Fields) → has_key fs ≡ false → value_of k fs ≡ null
  no_key end h = refl
  no_key (field l v fs) h = ground (arith, no_key fs)

add_keys-IsAscending :
    (fs : Fields) (ls : List String) → IsAscending ls → IsAscending (add_keys fs ls)
add_keys-IsAscending end ls h = h
add_keys-IsAscending (field k v fs) ls h = elim (Bool-cases (is_ignored k)) [
  | inl e ↦ rw e (add_keys-IsAscending fs ls h)
  | inr e ↦ rw e (add_keys-IsAscending fs (insert_key k ls) (insert-IsAscending k ls h))
]

-- The names of the changes.
abbrev pub names : List AuditChange → List String
names [] = []
names (c ∷ cs) = c.field_name ∷ names cs

module _ (b a : Fields) where
  All-names :
      (j : String) (ks : List String)
      → All (λ l. text_ltb j l ≡ true) ks
      → All (λ l. text_ltb j l ≡ true) (names (changes_of b a ks))
  All-names j [] h = tt
  All-names j (k ∷ ks) h = elim (Bool-cases (same (value_of k b) (value_of k a))) [
    | inl e ↦ rw e (All-names j ks h.1)
    | inr e ↦ rw e (h.0, All-names j ks h.1)
  ]

  names-IsAscending : (ks : List String) → IsAscending ks → IsAscending (names (changes_of b a ks))
  names-IsAscending [] h = tt
  names-IsAscending (k ∷ ks) h = elim (Bool-cases (same (value_of k b) (value_of k a))) [
    | inl e ↦ rw e (names-IsAscending ks h.1)
    | inr e ↦ rw e (All-names k ks h.0, names-IsAscending ks h.1)
  ]

  -- The change of a field, by its values.
  abbrev change_at : String → AuditChange
  change_at k = record { field_name = k; before = value_of k b; after = value_of k a }

  find-changes :
      (k : String) (ks : List String)
      → find (λ c. c.field_name == k) (changes_of b a ks) ≡ (
          if exists (λ l. l == k) ks && not (same (value_of k b) (value_of k a))
          then some (change_at k)
          else none)
  find-changes k [] = refl
  find-changes k (l ∷ ks) = elim (Bool-cases (l == k)) [
    | inl here ↦
        let key : l ≡ k = (string_eq.equal_iff l k).0 here in
        rw key (
          let own : (k == k) ≡ true = (string_eq.equal_iff k k).1 refl in
          ground (arith, find-changes k ks, own))
    | inr other ↦ ground (arith, find-changes k ks, other)
  ]

  -- A key with different values is a key of one of the objects.
  keys_differ :
      (k : String)
      → (exists (λ l. l == k) (add_keys a (add_keys b []))
          && not (same (value_of k b) (value_of k a)))
        ≡ (not (is_ignored k) && not (same (value_of k b) (value_of k a)))
  keys_differ k = ground (
    arith,
    exists-add_keys k a (add_keys b []),
    exists-add_keys k b [],
    no_key k a,
    no_key k b,
    same_iff (value_of k b) (value_of k a),
  )

  -- What a search by a test on the key gives, as conditions on the values.
  by_test :
      (k : String) (o : Option AuditChange)
      → o ≡ (
          if not (is_ignored k) && not (same (value_of k b) (value_of k a))
          then some (change_at k)
          else none)
      → ((o ≡ some (change_at k)) ↔ ((is_ignored k ≡ false) × (value_of k b ≢ value_of k a)))
        × ((o ≡ none) ↔ ((is_ignored k ≡ true) ⊎ (value_of k b ≡ value_of k a)))
  by_test k o e = elim (Bool-cases (is_ignored k)) [
    | inl skip ↦ (
      (λ h. absurd (ground (arith, skip)), λ h. absurd (ground (arith, skip, h.0))),
      (λ h. inl skip, λ h. ground (arith, skip)),
    )
    | inr kept ↦ elim (Bool-cases (same (value_of k b) (value_of k a))) [
      | inl e' ↦
          let equal : value_of k b ≡ value_of k a = (same_iff (value_of k b) (value_of k a)).0 e' in
          (
            (λ h. absurd (ground (arith, e')), λ h. absurd (h.1 equal)),
            (λ h. inr equal, λ h. ground (arith, e')),
          )
      | inr e' ↦
          let differ : value_of k b ≢ value_of k a = λ q.
            let again : same (value_of k b) (value_of k a) ≡ true =
              (same_iff (value_of k b) (value_of k a)).1 q in
            absurd (ground (arith, again, e')) in
          (
            (λ h. (kept, differ), λ h. ground (arith, kept, e')),
            (
              λ h. absurd (ground (arith, kept, e')),
              λ h. elim h [
                | inl skip ↦ absurd (ground (arith, skip, kept))
                | inr equal ↦ absurd (differ equal)
              ],
            ),
          )
    ]
  ]

  find-between :
      (k : String)
      → find (λ c. c.field_name == k) (changes_between b a) ≡ (
          if not (is_ignored k) && not (same (value_of k b) (value_of k a))
          then some (change_at k)
          else none)
  unfolding changes_between
  find-between k =
      find-changes k (add_keys a (add_keys b []))
      ∙ ap (λ t. if t then some (change_at k) else none) (keys_differ k)

  -- auditChanges names each field at most once, in the order of the texts, and lists the change of a field, with its
  -- two values, exactly where it is neither created_at nor updated_at and its values in the two objects, null where
  -- it is missing, are different.
  pub changes_between_lem :
      (k : String)
      → IsAscending (names (changes_between b a))
        × ((find (λ c. c.field_name == k) (changes_between b a)
              ≡ some (record { field_name = k; before = value_of k b; after = value_of k a }))
            ↔ ((is_ignored k ≡ false) × (value_of k b ≢ value_of k a)))
        × ((find (λ c. c.field_name == k) (changes_between b a) ≡ none)
            ↔ ((is_ignored k ≡ true) ⊎ (value_of k b ≡ value_of k a)))
  unfolding changes_between
  changes_between_lem k =
      let (listed, unlisted) =
        by_test k (find (λ c. c.field_name == k) (changes_between b a)) (find-between k) in
      (
        names-IsAscending (add_keys a (add_keys b []))
            (add_keys-IsAscending a (add_keys b []) (add_keys-IsAscending b [] tt)),
        listed,
        unlisted,
      )
