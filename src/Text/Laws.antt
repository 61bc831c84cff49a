-- ===== src/Text/Laws.antt =====
-- Laws of trimming and of the case of letters.
use Prim.Native.Char.{Char, char, code}
use mathlib.Core.List.{reverse, reverse-cons, reverse-reverse, reverse-append, map-append}
use rentcar_backend.Base.{
  ℕ, ◌+◌, ◌≡◌, refl, ap, sym, ◌∙◌, if◌then◌else◌, Bool, true, false, String, List, [], ◌∷◌, ◌++◌,
  arith, Bool-cases, inl, inr, map, ltb,
}
use rentcar_backend.Text.{
  chars, of_chars, is_space, is_space_code, skip_space, trim_chars, trim_space, Unicode,
  is_ascii_upper, to_lower_char, to_lower, small-IsScalar, lowered-le, checked,
}

pub chars-of_chars : (cs : List Char) → chars (of_chars cs) ≡ cs
chars-of_chars [] = refl
chars-of_chars (c ∷ cs) = ap (λ xs. c ∷ xs) (chars-of_chars cs)

pub of_chars-chars : (s : String) → of_chars (chars s) ≡ s
of_chars-chars String.[] = refl
of_chars-chars (String.◌∷◌ c s) = ap (λ t. String.◌∷◌ c t) (of_chars-chars s)

-- No space stands first.
abbrev pub starts_clean : List Char → Bool
starts_clean [] = true
starts_clean (c ∷ cs) = if is_space c then false else true

skip_starts : (cs : List Char) → starts_clean (skip_space cs) ≡ true
skip_starts [] = refl
skip_starts (c ∷ cs) = ground (arith, skip_starts cs)

skip_clean : (cs : List Char) → starts_clean cs ≡ true → skip_space cs ≡ cs
skip_clean [] h = refl
skip_clean (c ∷ cs) h = ground arith

-- What trimming takes off stands in front.
skip_split : (cs : List Char) → (sp : List Char) × (cs ≡ sp ++ skip_space cs)
skip_split [] = ([], refl)
skip_split (c ∷ cs) = elim (Bool-cases (is_space c)) [
  | inl space ↦ (let (sp, e) = skip_split cs in (c ∷ sp, rw space (ap (λ xs. c ∷ xs) e)))
  | inr solid ↦ ([], rw solid refl)
]

starts_prefix : (xs ys : List Char) → starts_clean (xs ++ ys) ≡ true → starts_clean xs ≡ true
starts_prefix [] ys h = refl
starts_prefix (x ∷ xs) ys h = h

-- Trimming the end leaves the start.
end_trimmed :
    (xs : List Char)
    → starts_clean xs ≡ true
    → starts_clean (reverse (skip_space (reverse xs))) ≡ true
end_trimmed xs h =
    let (sp, e) = skip_split (reverse xs) in
    let whole : xs ≡ reverse (skip_space (reverse xs)) ++ reverse sp =
      sym (reverse-reverse xs) ∙ ap reverse e ∙ reverse-append sp (skip_space (reverse xs)) in
    starts_prefix (reverse (skip_space (reverse xs))) (reverse sp)
      (let h' : starts_clean xs ≡ true = h in rw whole at h')

pub trim_chars_idem : (cs : List Char) → trim_chars (trim_chars cs) ≡ trim_chars cs
unfolding trim_chars
trim_chars_idem cs =
    let inner : List Char = skip_space (reverse (skip_space cs)) in
    rw
      (
        skip_clean (reverse inner) (end_trimmed (skip_space cs) (skip_starts cs)),
        reverse-reverse inner,
        skip_clean inner (skip_starts (reverse (skip_space cs))),
      )
      refl

map-reverse : (f : Char → Char) (cs : List Char) → map f (reverse cs) ≡ reverse (map f cs)
map-reverse f [] = refl
map-reverse f (c ∷ cs) =
    rw
      (
        reverse-cons c cs,
        reverse-cons (f c) (map f cs),
        map-append f (reverse cs) (c ∷ []),
        map-reverse f cs,
      )
      refl

-- A change of characters that leaves spaces as they are, and others no spaces.
map-skip :
    (f : Char → Char) (cs : List Char)
    → ((c : Char) → is_space (f c) ≡ is_space c)
    → skip_space (map f cs) ≡ map f (skip_space cs)
map-skip f [] h = refl
map-skip f (c ∷ cs) h = elim (Bool-cases (is_space c)) [
  | inl space ↦ rw (h c, space) (map-skip f cs h)
  | inr solid ↦ rw (h c, solid) refl
]

pub trim-map :
    (f : Char → Char) (cs : List Char)
    → ((c : Char) → is_space (f c) ≡ is_space c)
    → trim_chars (map f cs) ≡ map f (trim_chars cs)
unfolding trim_chars
trim-map f cs h =
    rw
      (
        map-skip f cs h,
        ← map-reverse f (skip_space cs),
        map-skip f (reverse (skip_space cs)) h,
        ← map-reverse f (skip_space (reverse (skip_space cs))),
      )
      refl

pub map_idem :
    (f : Char → Char) (cs : List Char) → ((c : Char) → f (f c) ≡ f c) → map f (map f cs) ≡ map f cs
map_idem f [] h = refl
map_idem f (c ∷ cs) h = rw (h c, map_idem f cs h) refl

-- What the tables of package `unicode` say of letters beyond ASCII: a space stays a space and a letter no
-- space, and lower case is in lower case.
pub record IsCaseTable (u : Unicode) : Type 0 where
  pub spaces : (c : Char) → ltb (code c) 128 ≡ false → is_space (u.lower c) ≡ is_space c
  pub stable : (c : Char) → ltb (code c) 128 ≡ false → to_lower_char u (u.lower c) ≡ u.lower c

letter_space : (n : ℕ) → is_ascii_upper n ≡ true → is_space_code (n + 32) ≡ is_space_code n
unfolding is_space_code
letter_space n h = ground arith

letter_ascii :
    (n : ℕ)
    → is_ascii_upper n ≡ true
    → (ltb n 128 ≡ true) × (ltb (n + 32) 128 ≡ true) × (is_ascii_upper (n + 32) ≡ false)
letter_ascii n h = (ground arith, ground arith, ground arith)

-- An upper case letter of ASCII, another ASCII character, and one beyond ASCII.
lower_letter :
    (u : Unicode) (c : Char)
    → is_ascii_upper (code c) ≡ true
    → code (to_lower_char u c) ≡ code c + 32
unfolding to_lower_char
lower_letter u c h =
    rw ((letter_ascii (code c) h).0)
      (elim (checked (is_ascii_upper (code c)))
        as (λ x.
          code (elim x [
            | inl k ↦ char (code c + 32) (small-IsScalar (code c + 32) (lowered-le (code c) k))
            | inr _ ↦ c
          ])
          ≡ code c + 32) [ inl k ↦ refl | inr k ↦ absurd (ground arith) ])

lower_same :
    (u : Unicode) (c : Char)
    → ltb (code c) 128 ≡ true
    → is_ascii_upper (code c) ≡ false
    → to_lower_char u c ≡ c
unfolding to_lower_char
lower_same u c small h =
    rw small
      (elim (checked (is_ascii_upper (code c)))
        as (λ x.
          elim x [
            | inl k ↦ char (code c + 32) (small-IsScalar (code c + 32) (lowered-le (code c) k))
            | inr _ ↦ c
          ]
          ≡ c) [ inl k ↦ absurd (ground arith) | inr k ↦ refl ])

lower_beyond : (u : Unicode) (c : Char) → ltb (code c) 128 ≡ false → to_lower_char u c ≡ u.lower c
unfolding to_lower_char
lower_beyond u c h = rw h refl

module _ (u : Unicode) (t : IsCaseTable u) where
  pub lower_space : (c : Char) → is_space (to_lower_char u c) ≡ is_space c
  lower_space c = elim (Bool-cases (ltb (code c) 128)) [
    | inr beyond ↦ rw (lower_beyond u c beyond) (t.spaces c beyond)
    | inl small ↦ elim (Bool-cases (is_ascii_upper (code c))) [
      | inl letter ↦ rw (lower_letter u c letter) (letter_space (code c) letter)
      | inr other ↦ rw (lower_same u c small other) refl
    ]
  ]

  pub lower_idem : (c : Char) → to_lower_char u (to_lower_char u c) ≡ to_lower_char u c
  lower_idem c = elim (Bool-cases (ltb (code c) 128)) [
    | inr beyond ↦ rw (lower_beyond u c beyond) (t.stable c beyond)
    | inl small ↦ elim (Bool-cases (is_ascii_upper (code c))) [
      | inl letter ↦
          (let (a, b, d) = letter_ascii (code c) letter in
            lower_same u (to_lower_char u c) (rw (lower_letter u c letter) b)
              (rw (lower_letter u c letter) d))
      | inr other ↦ rw (lower_same u c small other) (lower_same u c small other)
    ]
  ]

  -- Trimmed and lowered, a text stays as it is when that is done again.
  pub lowered_trim_idem :
      (s : String) → to_lower u (trim_space (to_lower u (trim_space s))) ≡ to_lower u (trim_space s)
  lowered_trim_idem s =
      let cs : List Char = trim_chars (chars s) in
      let f : Char → Char = to_lower_char u in
      rw
        (
          chars-of_chars cs,
          chars-of_chars (map f cs),
          trim-map f cs lower_space,
          trim_chars_idem (chars s),
          chars-of_chars (map f cs),
          map_idem f cs lower_idem,
        )
        refl
