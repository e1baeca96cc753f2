-- ===== src/Resolver/Labels.antt =====
-- A domain is covered by a name just when its labels end in the labels of the name.
use mathlib.Core.List.{reverse-cons}
use openvpn_connect_web.Prelude.{
  Bool, Bool-cases, List, [], ap, append-nil, append_assoc, false, inl, inr, refl, reverse, sym,
  true, ◌&&◌, ◌++◌, ◌==◌, ◌||◌, ◌∙◌, ◌∷◌, ◌≡◌, any, arith,
}
use openvpn_connect_web.Prelude.Text.{
  Text, join, nonempty, split, split_from, text_eq, text_eq_refl, text_eq_sound,
}
use openvpn_connect_web.Resolver.{ends_with, covered, is_under, plain}

abbrev pub texts_eq : List Text → List Text → Bool
texts_eq [] [] = true
texts_eq [] (_ ∷ _) = false
texts_eq (_ ∷ _) [] = false
texts_eq (s ∷ ss) (t ∷ ts) = text_eq s t && texts_eq ss ts

abbrev pub labels : Text → List Text
labels [] = []
labels (c ∷ s) = split 46 (c ∷ s)

abbrev pub is_end_of : List Text → List Text → Bool
is_end_of xs [] = texts_eq xs []
is_end_of xs (y ∷ ys) = texts_eq xs (y ∷ ys) || is_end_of xs ys

both_true : (a b : Bool) → (a && b) ≡ true → (a ≡ true) × (b ≡ true)
both_true true b h = (refl, h)
both_true false b h = cc h

texts_eq_sound : (ss ts : List Text) → texts_eq ss ts ≡ true → ss ≡ ts
texts_eq_sound [] [] h = refl
texts_eq_sound [] (t ∷ ts) h = cc h
texts_eq_sound (s ∷ ss) [] h = cc h
texts_eq_sound (s ∷ ss) (t ∷ ts) h =
    let (first, rest) = both_true (text_eq s t) (texts_eq ss ts) h in
    cc (text_eq_sound s t first, texts_eq_sound ss ts rest)

texts_eq_refl : (ss : List Text) → texts_eq ss ss ≡ true
texts_eq_refl [] = refl
texts_eq_refl (s ∷ ss) = rw (text_eq_refl s) (texts_eq_refl ss)

split_from-nonempty : (cur s : Text) → nonempty (split_from 46 cur s) ≡ true
unfolding split_from
split_from-nonempty cur [] = refl
split_from-nonempty cur (c ∷ s) = elim (Bool-cases (c == 46)) [
  | inl dot ↦ rw dot refl
  | inr other ↦ rw other (split_from-nonempty (c ∷ cur) s)
]

join-cons :
    (x : Text) (xs : List Text) → nonempty xs ≡ true → join 46 (x ∷ xs) ≡ x ++ 46 ∷ join 46 xs
unfolding join
join-cons x [] h = cc h
join-cons x (y ∷ ys) h = refl

join-split_from : (cur s : Text) → join 46 (split_from 46 cur s) ≡ reverse cur ++ s
unfolding split_from join
join-split_from cur [] = sym (append-nil (reverse cur))
join-split_from cur (c ∷ s) = elim (Bool-cases (c == 46)) [
  | inl dot ↦ rw dot (
      join-cons (reverse cur) (split_from 46 [] s) (split_from-nonempty [] s)
      ∙ (let is_dot : c ≡ 46 = ground (arith, dot) in
          ap (λ t. reverse cur ++ 46 ∷ t) (join-split_from [] s)
          ∙ ap (λ d. reverse cur ++ d ∷ s) (sym is_dot)))
  | inr other ↦ rw other (
      join-split_from (c ∷ cur) s
      ∙ ap (λ r. r ++ s) (reverse-cons c cur)
      ∙ append_assoc (reverse cur) (c ∷ []) s)
]

-- texts split alike are the same
split-texts_eq : (e s : Text) → texts_eq (split 46 e) (split 46 s) ≡ text_eq s e
unfolding split
split-texts_eq e s = elim (Bool-cases (text_eq s e)) [
  | inl same ↦ rw (text_eq_sound s e same, text_eq_refl e) (texts_eq_refl (split_from 46 [] e))
  | inr other ↦ elim (Bool-cases (texts_eq (split_from 46 [] e) (split_from 46 [] s))) [
    | inr apart ↦ rw (apart, other) refl
    | inl alike ↦
        let same : e ≡ s =
          sym (join-split_from [] e)
          ∙ ap (join 46) (texts_eq_sound (split_from 46 [] e) (split_from 46 [] s) alike)
          ∙ join-split_from [] s in
        let equal : text_eq s e ≡ true = rw same (text_eq_refl s) in absurd (cc (equal, other))
  ]
]

no_texts : (xs : List Text) → nonempty xs ≡ true → texts_eq xs [] ≡ false
no_texts [] h = cc h
no_texts (x ∷ xs) h = refl

split-not_empty : (e : Text) → texts_eq (split 46 e) [] ≡ false
unfolding split
split-not_empty e = no_texts (split_from 46 [] e) (split_from-nonempty [] e)

-- the dotted end of what is still to be read, behind the label begun
split_from-is_end_of :
    (e cur s : Text)
    → is_end_of (split 46 e) (split_from 46 cur s)
      ≡ (texts_eq (split 46 e) (split_from 46 cur s) || ends_with s (46 ∷ e))
unfolding split_from text_eq split
split_from-is_end_of e cur [] =
    ap (λ b. texts_eq (split 46 e) (reverse cur ∷ []) || b) (split-not_empty e)
split_from-is_end_of e cur (c ∷ s) = elim (Bool-cases (c == 46)) [
  | inl dot ↦ rw (dot, split_from-is_end_of e [] s, split-texts_eq e s) refl
  | inr other ↦ rw other (split_from-is_end_of e (c ∷ cur) s)
]

all_end : (ys : List Text) → is_end_of [] ys ≡ true
all_end [] = refl
all_end (y ∷ ys) = all_end ys

is_under-is_end_of :
    (domain entry : Text) → is_under domain entry ≡ is_end_of (labels entry) (labels domain)
unfolding is_under split split_from
is_under-is_end_of domain [] = sym (all_end (labels domain))
is_under-is_end_of [] (d ∷ entry) = sym (split-not_empty (d ∷ entry))
is_under-is_end_of (c ∷ domain) (d ∷ entry) =
    ap (λ b. b || ends_with (c ∷ domain) (46 ∷ d ∷ entry))
      (sym (split-texts_eq (d ∷ entry) (c ∷ domain)))
    ∙ sym (split_from-is_end_of (d ∷ entry) [] (c ∷ domain))

any_alike :
    {A : Type 0} (p q : A → Bool) → ((x : A) → p x ≡ q x) → (xs : List A) → any p xs ≡ any q xs
any_alike p q h [] = refl
any_alike p q h (x ∷ xs) = rw (h x, any_alike p q h xs) refl

-- A rule's domain counts as claimed by the tunnel just when its labels end in those of one of the
-- claimed names; case and dots at the end do not matter, and the root claims every domain.
pub covered-is_end_of :
    (domain : Text) (claimed : List Text)
    → covered domain claimed
      ≡ any (λ entry. is_end_of (labels (plain entry)) (labels (plain domain))) claimed
unfolding covered
covered-is_end_of domain claimed =
    any_alike _ _ (λ entry. is_under-is_end_of (plain domain) (plain entry)) claimed
