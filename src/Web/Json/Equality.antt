-- ===== src/Web/Json/Equality.antt =====
-- The test of equal JSON values, and their equality.
use rentcar_backend.Base.{◌≡◌, ◌↔◌, refl, ap, Bool, ◌&&◌, true, false, ◌==◌, string_eq, arith}
use rentcar_backend.Web.Json.{
  Value, Items, Fields, null, boolean, number, text, array, object, nil, cons, end, field, same,
  same_items, same_fields,
}

both : (a b : Bool) → (a && b) ≡ true → (a ≡ true) × (b ≡ true)
both a b h = (ground arith, ground arith)

both_true : (a b : Bool) → a ≡ true → b ≡ true → (a && b) ≡ true
both_true a b h k = ground arith

mutual
  unfolding same

  same_sound : (v w : Value) → same v w ≡ true → v ≡ w
  same_sound null null h = refl
  same_sound (boolean true) (boolean true) h = refl
  same_sound (boolean false) (boolean false) h = refl
  same_sound (number s) (number t) h = ap number ((string_eq.equal_iff s t).0 h)
  same_sound (text s) (text t) h = ap text ((string_eq.equal_iff s t).0 h)
  same_sound (array xs) (array ys) h = ap array (items_sound xs ys h)
  same_sound (object fs) (object gs) h = ap object (fields_sound fs gs h)
  same_sound v w h = ground arith

  items_sound : (xs ys : Items) → same_items xs ys ≡ true → xs ≡ ys
  items_sound nil nil h = refl
  items_sound (cons x xs) (cons y ys) h =
      let (a, b) = both (same x y) (same_items xs ys) h in
      let e : x ≡ y = same_sound x y a in let es : xs ≡ ys = items_sound xs ys b in rw (e, es) refl
  items_sound xs ys h = ground arith

  fields_sound : (fs gs : Fields) → same_fields fs gs ≡ true → fs ≡ gs
  fields_sound end end h = refl
  fields_sound (field k x fs) (field l y gs) h =
      let (a, rest) = both (k == l && same x y) (same_fields fs gs) h in
      let (key, b) = both (k == l) (same x y) a in
      let e : k ≡ l = (string_eq.equal_iff k l).0 key in
      let f : x ≡ y = same_sound x y b in
      let es : fs ≡ gs = fields_sound fs gs rest in rw (e, f, es) refl
  fields_sound fs gs h = ground arith

mutual
  unfolding same

  same_self : (v : Value) → same v v ≡ true
  same_self null = refl
  same_self (boolean true) = refl
  same_self (boolean false) = refl
  same_self (number s) = (string_eq.equal_iff s s).1 refl
  same_self (text s) = (string_eq.equal_iff s s).1 refl
  same_self (array xs) = items_self xs
  same_self (object fs) = fields_self fs

  items_self : (xs : Items) → same_items xs xs ≡ true
  items_self nil = refl
  items_self (cons x xs) = both_true _ _ (same_self x) (items_self xs)

  fields_self : (fs : Fields) → same_fields fs fs ≡ true
  fields_self end = refl
  fields_self (field k x fs) =
      both_true _ _ (both_true _ _ ((string_eq.equal_iff k k).1 refl) (same_self x))
        (fields_self fs)

pub same_iff : (v w : Value) → (same v w ≡ true) ↔ (v ≡ w)
same_iff v w = (same_sound v w, λ e. rw e (same_self w))
