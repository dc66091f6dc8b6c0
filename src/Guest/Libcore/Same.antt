-- ===== src/Guest/Libcore/Same.antt =====
-- scripts/libcore_guest_link.py: images that differ in their imports only, and the images with one put
-- in the place of another.
use artbox.Base.{
  ℕ, false, Option, none, some, List, [], ◌∷◌, ◌≡◌, inl, inr, refl, sym, ap, ◌∙◌, Bool-cases,
}
use artbox.Base.Text.{◌≟◌, ≟_iff}
use artbox.Guest.Scope.{Image, Images, image_of}
use artbox.Guest.Reachable.{Reach}
use artbox.Guest.Closed.{IsScope}
use artbox.Guest.Resolved.{IsProvided}
use artbox.Guest.Libcore.{openjdkjvm, set_image}

-- Two readings of a name that need and export the same.
abbrev pub IsSame : Option Image → Option Image → Type 0
IsSame none none = Unit
IsSame none (some j) = ⊥
IsSame (some i) none = ⊥
IsSame (some i) (some j) = (i.needed ≡ j.needed) × (i.exports ≡ j.exports)

pub IsSame-refl : (o : Option Image) → IsSame o o
IsSame-refl none = tt
IsSame-refl (some i) = (refl, refl)

IsSame-sym : (o p : Option Image) → IsSame o p → IsSame p o
IsSame-sym none none s = tt
IsSame-sym none (some j) s = s
IsSame-sym (some i) none s = s
IsSame-sym (some i) (some j) s = (sym s.0, sym s.1)

same_image :
    (o p : Option Image) (i : Image)
    → IsSame o p
    → o ≡ some i
    → (j : Image) × (p ≡ some j) × (i.needed ≡ j.needed) × (i.exports ≡ j.exports)
same_image none none i s e = cc
same_image none (some j) i s e = cc
same_image (some i') none i s e = absurd s
same_image (some i') (some j) i s e =
    let is : i' ≡ i = cc in
    (
      j,
      refl,
      ap (λ (k : Image). k.needed) (sym is) ∙ s.0,
      ap (λ (k : Image). k.exports) (sym is) ∙ s.1,
    )

abbrev pub AreSame : Images → Images → Type 0
AreSame a b = (x : List ℕ) → IsSame (image_of x a) (image_of x b)

AreSame-sym : (a b : Images) → AreSame a b → AreSame b a
AreSame-sym a b same x = IsSame-sym (image_of x a) (image_of x b) (same x)

pub Reach-same : (a b : Images) (name x : List ℕ) → AreSame a b → Reach a name x → Reach b name x
Reach-same a b name x same Reach.start = Reach.start
Reach-same a b name x same (Reach.step from to image before held needs) =
    let (other, held', needed, _) =
      same_image (image_of from a) (image_of from b) image (same from) held in
    Reach.step from to other (Reach-same a b name from same before) held' (rw needed at needs)

pub IsScope-same :
    (a b : Images) (name : List ℕ) (scope : List (List ℕ))
    → AreSame a b
    → IsScope a name scope
    → IsScope b name scope
IsScope-same a b name scope same s = record {
  sound = λ x h. Reach-same a b name x same (s.sound x h);
  complete = λ x r. s.complete x (Reach-same b a name x (AreSame-sym a b same) r);
  present = λ x h.
      let (image, held) = s.present x h in
      let (other, held', _, _) = same_image (image_of x a) (image_of x b) image (same x) held in
      (other, held');
  distinct = s.distinct;
}

pub IsProvided-same :
    (a b : Images) (scope : List (List ℕ)) (symbol : List ℕ)
    → AreSame a b
    → IsProvided a scope symbol
    → IsProvided b scope symbol
IsProvided-same a b scope symbol same p =
    let (other, held', _, exports) =
      same_image (image_of p.item a) (image_of p.item b) p.image (same p.item) p.held in
    record {
      item = p.item;
      within = p.within;
      image = other;
      held = held';
      exported = rw exports at p.exported;
    }

pub image_of-set_image_same :
    (name : List ℕ) (image old : Image) (images : Images)
    → image_of name images ≡ some old
    → image_of name (set_image name image images) ≡ some image
unfolding image_of set_image
image_of-set_image_same name image old [] h = cc
image_of-set_image_same name image old (e ∷ es) h = elim (Bool-cases (name ≟ e.0)) [
  | inl same ↦ rw (same, same) refl
  | inr other ↦ rw (other, other) (image_of-set_image_same name image old es (rw other at h))
]

pub image_of-set_image_other :
    (x name : List ℕ) (image : Image) (images : Images)
    → (x ≟ name) ≡ false
    → image_of x (set_image name image images) ≡ image_of x images
unfolding image_of set_image
image_of-set_image_other x name image [] h = refl
image_of-set_image_other x name image (e ∷ es) h = elim (Bool-cases (name ≟ e.0)) [
  | inl same ↦
      let is : name ≡ e.0 = (≟_iff name e.0).0 same in
      let other : (x ≟ e.0) ≡ false = rw is at h in
      rw (same, other) (image_of-set_image_other x name image es h)
  | inr differs ↦ rw (differs, image_of-set_image_other x name image es h) refl
]

pub set_image-AreSame :
    (image old : Image) (images : Images)
    → image_of openjdkjvm images ≡ some old
    → old.needed ≡ image.needed
    → old.exports ≡ image.exports
    → AreSame (set_image openjdkjvm image images) images
set_image-AreSame image old images held needed exports x = elim (Bool-cases (x ≟ openjdkjvm)) [
  | inr other ↦
      rw (image_of-set_image_other x openjdkjvm image images other)
        (IsSame-refl (image_of x images))
  | inl same ↦
      let is : x ≡ openjdkjvm = (≟_iff x openjdkjvm).0 same in
      rw (is, held, image_of-set_image_same openjdkjvm image old images held)
        (sym needed, sym exports)
]
